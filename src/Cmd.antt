-- ===== src/Cmd.antt =====
-- `system_cmd` of src/cmd.c, in the parent. What the child writes arrives in chunks, which `read`
-- returns as they come, at most as much as it is asked for.
pub mod Redirect
use nerves_initramfs.Base.{
  ℕ, zero, suc, ◌+◌, ◌-◌, ◌≤◌, ◌<◌, Bool, true, false, List, [], ◌∷◌, ◌++◌, Option, none, some, ◌≡◌,
  inl, inr, refl, sym, ◌∙◌, ap, arith, Bool-cases, Option-cases, ltb, leb, if◌then◌else◌, length,
  take, drop, replicate, blit, blit_fill, append_assoc, append-nil, take_all, length-append,
  length-take, take-drop, length-replicate, subst, take-append, drop_all,
}
use nerves_initramfs.Base.CString.{Bytes}
use nerves_initramfs.Base.Int.{ℤ, negsuc, eqb_ℤ}

-- `read` on the pipe: `none` at its end or on an error
unfoldable pub read_pipe : List Bytes → ℕ → Option (Bytes × List Bytes)
read_pipe [] n = none
read_pipe ([] ∷ chunks) n = read_pipe chunks n
read_pipe ((c ∷ cs) ∷ chunks) n =
    if leb (length (c ∷ cs)) n
    then some (c ∷ cs, chunks)
    else some (take n (c ∷ cs), drop n (c ∷ cs) ∷ chunks)

abbrev pub concat : List Bytes → Bytes
concat [] = []
concat (chunk ∷ chunks) = chunk ++ concat chunks

-- The loop: the buffer as the last read leaves it. `len` is `length` behind its decrement. A read
-- that has no room goes to `throwaway`. `none`: the fuel ran out.
unfoldable pub output_loop : ℕ → ℕ → Bytes → ℕ → List Bytes → Option Bytes
unfolding read_pipe
output_loop zero len output_buffer index chunks = none
output_loop (suc fuel) len output_buffer index chunks = elim (ltb index len) [
  | true ↦ elim (read_pipe chunks (len - index)) [
    | none ↦ some output_buffer
    | some (bytes, rest) ↦
        output_loop fuel len (blit output_buffer index bytes) (index + length bytes) rest
  ]
  | false ↦ elim (read_pipe chunks 256) [
    | none ↦ some output_buffer
    | some (bytes, rest) ↦ output_loop fuel len output_buffer index rest
  ]
]

-- What the kernel does: whether `pipe` works, what `fork` returns, what comes through the pipe, and
-- what `waitpid` returns and stores, if it stores a status.
pub record Child : Type 0 where
  pub pipe_opens : Bool
  pub pid : ℤ
  pub chunks : List Bytes
  pub waited : ℤ
  pub stored : Option ℤ

-- The value returned and the buffer. The inner `none` is the value of `status` where nothing stored
-- it; the fuel is one more than the child writes.
unfoldable pub system_cmd : Child → Bytes → ℕ → Option (Option ℤ × Bytes)
system_cmd child output_buffer len =
    let cleared = if ltb 0 len then blit output_buffer 0 (replicate len 0) else output_buffer in
    let status = if eqb_ℤ child.waited child.pid then child.stored else some (negsuc 0) in
    elim child.pipe_opens [
      | false ↦ some (some (negsuc 0), output_buffer)
      | true ↦
          elim (output_loop (suc (length (concat child.chunks))) (len - 1) cleared 0 child.chunks) [
            | none ↦ none
            | some buffer ↦ some (status, buffer)
          ]
    ]

-- What a read of at most `n` bytes may give where `out` is still to come.
abbrev Reads : Bytes → ℕ → Option (Bytes × List Bytes) → Type 0
Reads out n none = out ≡ []
Reads out n (some (bytes, rest)) =
    (out ≡ bytes ++ concat rest) × (0 < length bytes) × (length bytes ≤ n)

read_pipe-Reads :
    (chunks : List Bytes) (n : ℕ) → 0 < n → Reads (concat chunks) n (read_pipe chunks n)
unfolding read_pipe
read_pipe-Reads [] n room = refl
read_pipe-Reads ([] ∷ chunks) n room = read_pipe-Reads chunks n room
read_pipe-Reads ((c ∷ cs) ∷ chunks) n room = elim (Bool-cases (leb (length (c ∷ cs)) n)) [
  | inl e ↦ rw (e, read_pipe) (refl, omega arith, ground arith)
  | inr e ↦
      let len = length-take n (c ∷ cs) in
      let split : (c ∷ cs) ++ concat chunks
          ≡ take n (c ∷ cs) ++ (drop n (c ∷ cs) ++ concat chunks) =
        ap (λ l. l ++ concat chunks) (sym (take-drop n (c ∷ cs)))
        ∙ append_assoc (take n (c ∷ cs)) (drop n (c ∷ cs)) (concat chunks) in
      rw (e, read_pipe) (split, omega (arith, len), omega (arith, len))
]

-- A buffer with the first `len` bytes of `out` and zeros behind them.
abbrev pub cut_output : ℕ → Bytes → Bytes
cut_output len out = take len out ++ replicate (suc len - length (take len out)) 0

cut_output_short :
    (len : ℕ) (got : Bytes)
    → length got ≤ len
    → cut_output len got ≡ got ++ replicate (suc len - length got) 0
cut_output_short len got fits =
    ap (λ l. l ++ replicate (suc len - length l) 0) (take_all len got fits)

-- What comes behind a full buffer is lost.
cut_output_full :
    (len : ℕ) (got xs ys : Bytes)
    → length got ≡ len
    → cut_output len (got ++ xs) ≡ cut_output len (got ++ ys)
cut_output_full len got xs ys full =
    let cut : take len (got ++ xs) ≡ take len (got ++ ys) =
      rw⁻¹ full (take-append got xs ∙ sym (take-append got ys)) in
    ap (λ l. l ++ replicate (suc len - length l) 0) cut

-- The loop from a buffer that has `got` in front ends with all that fits in front.
output_loop_lem :
    (fuel len : ℕ) (got : Bytes) (chunks : List Bytes)
    → length got ≤ len
    → length (concat chunks) < fuel
    → output_loop fuel len (got ++ replicate (suc len - length got) 0) (length got) chunks
      ≡ some (cut_output len (got ++ concat chunks))
unfolding output_loop
output_loop_lem zero len got chunks fits enough = absurd (omega arith)
output_loop_lem (suc fuel) len got chunks fits enough =
    let buffer = got ++ replicate (suc len - length got) 0 in
    let finished : concat chunks ≡ [] → some buffer ≡ some (cut_output len (got ++ concat chunks)) =
      λ e. ap some (
        sym (
          ap (λ l. cut_output len (got ++ l)) e
          ∙ ap (cut_output len) (append-nil got)
          ∙ cut_output_short len got fits)) in
    elim (Bool-cases (ltb (length got) len)) [
      | inl e ↦
          let reads = read_pipe-Reads chunks (len - length got) (ground arith) in
          elim (Option-cases (read_pipe chunks (len - length got))) [
            | inl r ↦
                rw (e, r, output_loop)
                  (finished (subst (Reads (concat chunks) (len - length got)) r reads))
            | inr ((bytes, rest), r) ↦
                let (split, some_bytes, room) =
                  subst (Reads (concat chunks) (len - length got)) r reads in
                let sum = length-append got bytes in
                let total = ap length split ∙ length-append bytes (concat rest) in
                let filled =
                  blit_fill got bytes (suc len - length got) (length got) 0 refl (omega arith) in
                let left : suc len - length got - length bytes ≡ suc len - length (got ++ bytes) =
                  omega (arith, sum) in
                let next =
                  output_loop_lem fuel len (got ++ bytes) rest (omega (arith, sum))
                    (omega (arith, total)) in
                let whole : (got ++ bytes) ++ concat rest ≡ got ++ concat chunks =
                  append_assoc got bytes (concat rest) ∙ ap (◌++◌ got) (sym split) in
                rw (e, r, output_loop)
                  (ap (λ b. output_loop fuel len b (length got + length bytes) rest)
                      (filled ∙ ap (λ k. (got ++ bytes) ++ replicate k 0) left)
                    ∙ ap
                        (λ i.
                          output_loop fuel len
                            ((got ++ bytes) ++ replicate (suc len - length (got ++ bytes)) 0) i
                            rest)
                        (sym sum)
                    ∙ next
                    ∙ ap (λ l. some (cut_output len l)) whole)
          ]
      | inr e ↦
          let reads = read_pipe-Reads chunks 256 (omega arith) in
          let full : length got ≡ len = ground arith in
          elim (Option-cases (read_pipe chunks 256)) [
            | inl r ↦ rw (e, r, output_loop) (finished (subst (Reads (concat chunks) 256) r reads))
            | inr ((bytes, rest), r) ↦
                let (split, some_bytes, room) = subst (Reads (concat chunks) 256) r reads in
                let total = ap length split ∙ length-append bytes (concat rest) in
                rw (e, r, output_loop)
                  (output_loop_lem fuel len got rest fits (omega (arith, total))
                    ∙ ap some (cut_output_full len got (concat rest) (concat chunks) full))
          ]
    ]

clear_all :
    (buffer : Bytes) (n : ℕ) → length buffer ≡ n → blit buffer 0 (replicate n 0) ≡ replicate n 0
unfolding blit
clear_all buffer n exact =
    let e = length-replicate {A = ℕ} n 0 in
    ap (λ l. replicate n 0 ++ l) (drop_all (0 + length (replicate n 0)) buffer (omega (arith, e)))
    ∙ append-nil (replicate n 0)

-- Where the pipe opens, `system_cmd` returns with the buffer holding what the child wrote, cut to one
-- byte less than the buffer, and zeros behind it: no matter in what chunks it came, a string that is
-- terminated inside the buffer. The value is the child's status where `waitpid` gives the child.
pub system_cmd_lem :
    (child : Child) (output_buffer : Bytes) (len : ℕ)
    → child.pipe_opens ≡ true
    → length output_buffer ≡ suc len
    → system_cmd child output_buffer (suc len)
      ≡ some (
        (if eqb_ℤ child.waited child.pid then child.stored else some (negsuc 0)),
        cut_output len (concat child.chunks),
      )
unfolding system_cmd
system_cmd_lem child output_buffer len opens exact =
    let clear = clear_all output_buffer (suc len) exact in
    let back : suc len - 1 ≡ len = omega arith in
    let room : suc len - 0 ≡ suc len = omega arith in
    let loop =
      output_loop_lem (suc (length (concat child.chunks))) len [] child.chunks (omega arith)
        (omega arith) in
    let run =
      ap (λ b. output_loop (suc (length (concat child.chunks))) len b 0 child.chunks)
        (clear ∙ ap (λ k. replicate k 0) (sym room))
      ∙ loop in
    let some_room : ltb 0 (suc len) ≡ true = ground arith in
    rw (opens, some_room, back, run, system_cmd)
