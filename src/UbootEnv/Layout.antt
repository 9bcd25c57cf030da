-- ===== src/UbootEnv/Layout.antt =====
-- The loop of `uboot_env_write`: what it lays out behind what is written, and when it stops.
use mathlib.Core.List.{Permᴰ}
use nerves_initramfs.Base.{
  ℕ, ◌+◌, ◌-◌, ◌≤◌, ◌<◌, false, List, [], ◌∷◌, ◌++◌, ◌≡◌, refl, ◌∙◌, ap, ap₂, Bool-cases, inl, inr,
  arith, length, replicate, blit_fill, length-append, length-replicate, append_assoc, append-nil,
  leb,
}
use nerves_initramfs.Base.CString.{Bytes}
use nerves_initramfs.UbootEnv.Defs.{Pair, success, failure}
use nerves_initramfs.UbootEnv.Write.{write_pair, write_loop}

-- `name=value` and a NUL
unfoldable pub encode_pair : Pair → Bytes
encode_pair pair = pair.name ++ (b'=' ∷ (pair.value ++ (0 ∷ [])))

unfoldable pub encode : List Pair → Bytes
unfolding encode_pair
encode [] = []
encode (pair ∷ vars) = encode_pair pair ++ encode vars

-- `n` bytes have room for the pairs and for two more bytes.
abbrev pub HasRoom : ℕ → List Pair → Type 0
HasRoom n [] = Unit
HasRoom n (pair ∷ vars) = length (encode (pair ∷ vars)) + 2 ≤ n

pub length-encode_pair :
    (pair : Pair) → length (encode_pair pair) ≡ length pair.name + length pair.value + 2
unfolding encode_pair
length-encode_pair pair = omega (
  arith,
  length-append pair.name (b'=' ∷ (pair.value ++ (0 ∷ []))),
  length-append pair.value (0 ∷ []),
)

pub length-encode :
    (pair : Pair) (vars : List Pair)
    → length (encode (pair ∷ vars))
      ≡ length pair.name + length pair.value + 2 + length (encode vars)
unfolding encode
length-encode pair vars =
    omega (arith, length-append (encode_pair pair) (encode vars), length-encode_pair pair)

pub write_pair_lem :
    (w : Bytes) (n p : ℕ) (pair : Pair)
    → p ≡ length w
    → length pair.name + length pair.value + 2 ≤ n
    → write_pair (w ++ replicate n 0xff) p pair
      ≡ (w ++ encode_pair pair) ++ replicate (n - (length pair.name + length pair.value + 2)) 0xff
unfolding write_pair encode_pair
write_pair_lem w n p pair at fits =
    let nl = length pair.name in
    let vl = length pair.value in
    let w₁ = w ++ pair.name in
    let w₂ = w₁ ++ b'=' ∷ [] in
    let w₃ = w₂ ++ pair.value in
    let e₁ = blit_fill w pair.name n p 0xff at (omega arith) in
    let e₂ =
      blit_fill w₁ (b'=' ∷ []) (n - nl) (p + nl) 0xff (omega (arith, length-append w pair.name))
        (omega arith) in
    let e₃ =
      blit_fill w₂ pair.value (n - nl - 1) (p + nl + 1) 0xff
        (omega (arith, length-append w pair.name, length-append w₁ (b'=' ∷ []))) (omega arith) in
    let e₄ =
      blit_fill w₃ (0 ∷ []) (n - nl - 1 - vl) (p + nl + 1 + vl) 0xff
        (omega (
          arith,
          length-append w pair.name,
          length-append w₁ (b'=' ∷ []),
          length-append w₂ pair.value,
        ))
        (omega arith) in
    let left : n - nl - 1 - vl - 1 ≡ n - (nl + vl + 2) = omega arith in
    rw (e₁, e₂, e₃, e₄, left) (simp append_assoc)

HasRoom-tail :
    (n : ℕ) (pair : Pair) (vars : List Pair)
    → HasRoom n (pair ∷ vars)
    → HasRoom (n - (length pair.name + length pair.value + 2)) vars
HasRoom-tail n pair [] h = tt
HasRoom-tail n pair (next ∷ vars) h = omega (arith, length-encode pair (next ∷ vars))

HasRoom-cons :
    (n : ℕ) (pair : Pair) (vars : List Pair)
    → length pair.name + length pair.value + 4 ≤ n
    → HasRoom (n - (length pair.name + length pair.value + 2)) vars
    → HasRoom n (pair ∷ vars)
unfolding encode
HasRoom-cons n pair [] k h = omega (arith, length-encode pair [])
HasRoom-cons n pair (next ∷ vars) k h = omega (arith, length-encode pair (next ∷ vars))

-- One round of the loop, where its test lets the pair through.
write_loop_step :
    (w : Bytes) (n end p : ℕ) (pair : Pair) (vars : List Pair)
    → p ≡ length w
    → end + 2 ≡ length w + n
    → length pair.name + length pair.value + 4 ≤ n
    → write_loop end (w ++ replicate n 0xff) p (pair ∷ vars)
      ≡ write_loop end
          ((w ++ encode_pair pair)
            ++ replicate (n - (length pair.name + length pair.value + 2)) 0xff)
          (p + length pair.name + 1 + length pair.value + 1)
          vars
unfolding write_loop
write_loop_step w n end p pair vars at total fits =
    let test : leb end (p + length pair.name + 1 + length pair.value) ≡ false = ground arith in
    rw (test, write_pair_lem w n p pair at (omega arith))

pub write_loop_fits :
    (w : Bytes) (n end p : ℕ) (vars : List Pair)
    → p ≡ length w
    → end + 2 ≡ length w + n
    → HasRoom n vars
    → write_loop end (w ++ replicate n 0xff) p vars ≡ (
      success,
      (w ++ encode vars) ++ replicate (n - length (encode vars)) 0xff,
      length w + length (encode vars),
    )
write_loop_fits w n end p [] at total room =
    let e : n - 0 ≡ n = omega arith in
    let e' : length w + 0 ≡ p = omega arith in unfold write_loop encode in rw (append-nil, e, e')
write_loop_fits w n end p (pair ∷ vars) at total room =
    let l = length pair.name + length pair.value + 2 in
    let here =
      write_loop_step w n end p pair vars at total (omega (arith, length-encode pair vars)) in
    let later =
      write_loop_fits (w ++ encode_pair pair) (n - l) end _ vars
        (omega (arith, length-append w (encode_pair pair), length-encode_pair pair))
        (omega (
          arith,
          length-append w (encode_pair pair),
          length-encode_pair pair,
          length-encode pair vars,
        ))
        (HasRoom-tail n pair vars room) in
    let left : n - l - length (encode vars) ≡ n - length (encode (pair ∷ vars)) =
      omega (arith, length-encode pair vars) in
    let bytes : ((w ++ encode_pair pair) ++ encode vars)
          ++ replicate (n - l - length (encode vars)) 0xff
        ≡ (w ++ encode (pair ∷ vars)) ++ replicate (n - length (encode (pair ∷ vars))) 0xff =
      rw left (unfold encode in simp append_assoc) in
    let moved : length (w ++ encode_pair pair) + length (encode vars)
        ≡ length w + length (encode (pair ∷ vars)) =
      omega (
        arith,
        length-append w (encode_pair pair),
        length-encode_pair pair,
        length-encode pair vars,
      ) in
    here ∙ later ∙ ap₂ (λ (b : Bytes) (q : ℕ). (success, b, q)) bytes moved

-- Where the room is short the loop stops in a buffer of the same length.
pub write_loop_short :
    (w : Bytes) (n end p : ℕ) (vars : List Pair)
    → p ≡ length w
    → end + 2 ≡ length w + n
    → ¬ HasRoom n vars
    → (b : Bytes) × (q : ℕ) × (write_loop end (w ++ replicate n 0xff) p vars ≡ (failure, b, q))
      × (length b ≡ length w + n)
write_loop_short w n end p [] at total short = absurd (short tt)
write_loop_short w n end p (pair ∷ vars) at total short =
    elim (Bool-cases (leb end (p + length pair.name + 1 + length pair.value))) [
      | inl e ↦ (
        w ++ replicate n 0xff,
        p,
        unfold write_loop in rw e,
        omega
            (arith, length-append w (replicate n 0xff), length-replicate n (let x : ℕ = 0xff in x)),
      )
      | inr e ↦
          let l = length pair.name + length pair.value + 2 in
          let fits : length pair.name + length pair.value + 4 ≤ n = ground arith in
          let (b, q, run, len) =
            write_loop_short (w ++ encode_pair pair) (n - l) end
              (p + length pair.name + 1 + length pair.value + 1) vars
              (omega (arith, length-append w (encode_pair pair), length-encode_pair pair))
              (omega (arith, length-append w (encode_pair pair), length-encode_pair pair))
              (λ h. short (HasRoom-cons n pair vars fits h)) in
          (
            b,
            q,
            write_loop_step w n end p pair vars at total fits ∙ run,
            omega (arith, length-append w (encode_pair pair), length-encode_pair pair),
          )
    ]

pub HasRoom→fits :
    (n : ℕ) (vars : List Pair)
    → HasRoom n vars
    → 0 < length (encode vars)
    → length (encode vars) + 2 ≤ n
unfolding encode
HasRoom→fits n [] h t = absurd (omega arith)
HasRoom→fits n (pair ∷ vars) h t = h

pub fits→HasRoom :
    (n : ℕ) (vars : List Pair)
    → (0 < length (encode vars) → length (encode vars) + 2 ≤ n)
    → HasRoom n vars
fits→HasRoom n [] h = tt
fits→HasRoom n (pair ∷ vars) h = h (omega (arith, length-encode pair vars))

pub length-encode_perm : {l r : List Pair} → Permᴰ l r → length (encode l) ≡ length (encode r)
length-encode_perm Permᴰ.nil = refl
length-encode_perm (Permᴰ.cons {a} {b} {l₁ = l} {l₂ = r} e p) =
    ap (λ x. length (encode (x ∷ l))) e
    ∙ omega (arith, length-encode b l, length-encode b r, length-encode_perm p)
length-encode_perm (Permᴰ.swap {a} {b} {a' = c} {b' = f} {l} e e') =
    ap₂ (λ x y. length (encode (x ∷ y ∷ l))) e e'
    ∙ omega (
      arith,
      length-encode f (c ∷ l),
      length-encode c l,
      length-encode c (f ∷ l),
      length-encode f l,
    )
length-encode_perm (Permᴰ.trans p q) = length-encode_perm p ∙ length-encode_perm q

pub HasRoom-perm : (n : ℕ) {l r : List Pair} → Permᴰ l r → HasRoom n l → HasRoom n r
HasRoom-perm n {l} {r} p h = fits→HasRoom n r (λ t.
    omega (arith, length-encode_perm p, HasRoom→fits n l h (omega (arith, length-encode_perm p))))

pub HasRoom-lt : (n : ℕ) (vars : List Pair) → HasRoom n vars → 0 < n → length (encode vars) < n
unfolding encode
HasRoom-lt n [] h t = t
HasRoom-lt n (pair ∷ vars) h t = omega arith
