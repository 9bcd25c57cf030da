-- ===== src/Script/Save.antt =====
-- `saveenv` and then `loadenv`: the interpreter, the U-Boot environment and the device together.
use nerves_initramfs.Base.{
  ℕ, ◌-◌, ◌^◌, ◌≤◌, Bool, true, false, none, some, ◌≡◌, refl, ap₂, sym, ◌∙◌, ap, subst,
  if◌then◌else◌, length, ◌==◌, ==_iff, All,
}
use nerves_initramfs.Base.CString.{Bytes, codes, str_eq}
use nerves_initramfs.Base.Int.{ℤ}
use nerves_initramfs.UbootEnv.{Env, success, uboot_env_sort, uboot_env_getenv}
use nerves_initramfs.UbootEnv.Read.{uboot_env_read}
use nerves_initramfs.UbootEnv.Write.{uboot_env_write}
use nerves_initramfs.UbootEnv.Valid.{IsValidPair}
use nerves_initramfs.UbootEnv.Layout.{HasRoom}
use nerves_initramfs.UbootEnv.Order.{Sorts, sort_shape}
use nerves_initramfs.UbootEnv.Access.{IsDistinct}
use nerves_initramfs.UbootEnv.RoundTrip.{written_block}
use nerves_initramfs.Script.Defs.{boolean}
use nerves_initramfs.Script.Machine.{State, Platform, ok, ◌>>=◌, ◌>>◌, pure, deref}
use nerves_initramfs.Script.Value.{set_boolean_variable}
use nerves_initramfs.Script.Vars.{value_of}
use nerves_initramfs.Script.Location.{Locates, offset_of, size_of, sized, seek_to, open_env_runs}
use nerves_initramfs.Script.Reads.{level, open_spec_changes}
use nerves_initramfs.Script.Flags.{bind_ok, IsReady, flag_set}
use nerves_initramfs.Script.Storage.{
  loaded_name, modified_name, open_spec, open_env, read_env, read_done, use_block, load_content,
  transfer_fails, load_opened, save_opened, save_written, function_loadenv, function_saveenv,
}

module _ {W Fd : Type 0} (p : Platform W Fd) where
  -- The state behind a block that was used: the environment, and the flags.
  record Used (env : Env) (s : State W) : Type 0 where
    now : s.working_uboot_env ≡ env
    loaded : value_of s.variables loaded_name ≡ some (some (boolean true))
    modified : value_of s.variables modified_name ≡ some (some (boolean false))

  -- `use_block` behind its two flags
  after_flags :
      (s : State W) (env env' : Env) (buffer : Bytes)
      → IsReady p 1 s
      → s.working_uboot_env ≡ env
      → value_of s.variables modified_name ≡ some (some (boolean false))
      → uboot_env_read env buffer ≡ some (success, env')
      → (s' : State W) × (read_env p buffer s ≡ (ok none, s')) × Used env' s'
  unfolding read_env read_done str_eq
  after_flags s env env' buffer ready same modified read =
      let s₁ : State W = record s { working_uboot_env = env' } in
      let ready₁ : IsReady p 1 s₁ = record {
        aligned = ready.aligned;
        room = ready.room;
        loaded = ready.loaded;
        modified = ready.modified;
      } in
      let (s', set, flagged) = flag_set p 0 s₁ loaded_name true ready₁ ready₁.loaded in
      (
        s',
        ap (λ x. (deref (uboot_env_read x buffer) >>= read_done p) s) same
            ∙ bind_ok (deref (uboot_env_read env buffer)) (read_done p) (ap (λ o. deref o s) read)
            ∙ bind_ok (set_boolean_variable p loaded_name true) _ set,
        record {
          now = flagged.same_env;
          loaded = flagged.binds.bound;
          modified = flagged.binds.others modified_name refl ∙ modified;
        },
      )

  use_block_lem :
      (s : State W) (env env' : Env) (buffer : Bytes)
      → IsReady p 3 s
      → s.working_uboot_env ≡ env
      → uboot_env_read env buffer ≡ some (success, env')
      → (s' : State W) × (use_block p buffer s ≡ (ok none, s')) × Used env' s'
  unfolding use_block
  use_block_lem s env env' buffer ready same read =
      let (s₁, set₁, flagged₁) = flag_set p 2 s loaded_name false ready ready.loaded in
      let (s₂, set₂, flagged₂) =
        flag_set p 1 s₁ modified_name false flagged₁.ready flagged₁.ready.modified in
      let (s', rest, used) =
        after_flags s₂ env env' buffer flagged₂.ready (flagged₂.same_env ∙ flagged₁.same_env ∙ same)
          flagged₂.binds.bound read in
      (
        s',
        bind_ok (set_boolean_variable p loaded_name false) _ set₁
            ∙ bind_ok (set_boolean_variable p modified_name false) _ set₂
            ∙ rest,
        used,
      )

-- A descriptor of the device that the environment is on: `stored` is what stands in the `n` bytes from
-- the offset `off` on, and `position` where the descriptor reads and writes next. A seek to the offset
-- succeeds and moves the position there. A write of `n` bytes from there is whole and stays; a read of
-- `n` bytes from there gives what is stored. Neither seeking nor closing changes what is stored.
pub record IsDisk {W Fd : Type 0} (p : Platform W Fd) (stored : W → Bytes) (position : Fd → W → ℤ)
    (off : ℤ) (n : ℕ) (fd : Fd) : Type 0 where
  pub mallocs : (w : W) → length (p.malloc n w) ≡ n
  pub seeks : (w : W) → (p.lseek fd off w).0 ≡ true
  pub sought : (w : W) → position fd (p.lseek fd off w).1 ≡ off
  pub seek_keeps : (w : W) → stored (p.lseek fd off w).1 ≡ stored w
  pub writes_all :
      (block : Bytes) (w : W)
      → position fd w ≡ off
      → length block ≡ n
      → (p.write fd block w).0 ≡ length block
  pub writes :
      (block : Bytes) (w : W)
      → position fd w ≡ off
      → length block ≡ n
      → stored (p.write fd block w).1 ≡ block
  pub closes : (w : W) → stored (p.close fd w) ≡ stored w
  pub reads :
      (w : W) → position fd w ≡ off → length (stored w) ≡ n → (p.read fd n w).0 ≡ some (stored w)

module _ {W Fd : Type 0} (p : Platform W Fd) (stored : W → Bytes) (position : Fd → W → ℤ) (off : ℤ)
    (n : ℕ) (fd : Fd) (disk : IsDisk p stored position off n fd) where
  -- The state behind a save.
  record Saved (block : Bytes) (s : State W) : Type 0 where
    now : stored s.world ≡ block
    modified : value_of s.variables modified_name ≡ some (some (boolean false))

  save_opened_lem :
      (s : State W) (env' : Env) (block devpath : Bytes) (count : ℤ)
      → IsReady p 1 s
      → uboot_env_write p.qsort s.working_uboot_env (p.malloc s.working_uboot_env.env_size s.world)
        ≡ some (success, env', block)
      → length block ≡ env'.env_size
      → length block ≡ n
      → position fd s.world ≡ off
      → (s' : State W) × (save_opened p (some (fd, count, devpath)) s ≡ (ok none, s'))
        × Saved block s'
  unfolding save_opened save_written
  save_opened_lem s env' block devpath count ready written len whole_area there =
      let s₁ : State W = record s { working_uboot_env = env' } in
      let s₂ : State W = record s₁ { world = p.close fd (p.write fd block s.world).1 } in
      let ready₂ : IsReady p 1 s₂ = record {
        aligned = ready.aligned;
        room = ready.room;
        loaded = ready.loaded;
        modified = ready.modified;
      } in
      let (s', set, flagged) = flag_set p 0 s₂ modified_name false ready₂ ready₂.modified in
      let whole : ((p.write fd block s.world).0 == env'.env_size) ≡ true =
        (==_iff _ _).1 (disk.writes_all block s.world there whole_area ∙ len) in
      (
        s',
        bind_ok
              (deref (
                uboot_env_write p.qsort s.working_uboot_env
                  (p.malloc s.working_uboot_env.env_size s.world)))
              (save_written p (fd, count, devpath)) (ap (λ o. deref o s) written)
            ∙ ap
                (λ b.
                  (if b
                      then set_boolean_variable p modified_name false >> pure none
                      else transfer_fails p (codes "Could not write ") count devpath)
                    s₂)
                whole
            ∙ bind_ok (set_boolean_variable p modified_name false) _ set,
        record {
          now =
              ap stored flagged.same_world
              ∙ disk.closes (p.write fd block s.world).1
              ∙ disk.writes block s.world there whole_area;
          modified = flagged.binds.bound;
        },
      )

  load_opened_lem :
      (s : State W) (env' : Env) (devpath : Bytes) (count : ℤ)
      → IsReady p 3 s
      → s.working_uboot_env.env_size ≡ n
      → length (stored s.world) ≡ n
      → position fd s.world ≡ off
      → uboot_env_read s.working_uboot_env (stored s.world) ≡ some (success, env')
      → (s' : State W) × (load_opened p (some (fd, count, devpath)) s ≡ (ok none, s'))
        × Used p env' s'
  unfolding load_opened load_content
  load_opened_lem s env' devpath count ready sized_n len there read =
      let size = s.working_uboot_env.env_size in
      let s₁ : State W = record s { world = p.close fd (p.read fd size s.world).1 } in
      let ready₁ : IsReady p 3 s₁ = record {
        aligned = ready.aligned;
        room = ready.room;
        loaded = ready.loaded;
        modified = ready.modified;
      } in
      let content : (p.read fd size s.world).0 ≡ some (stored s.world) =
        subst (λ m. (p.read fd m s.world).0 ≡ some (stored s.world)) (sym sized_n)
          (disk.reads s.world there len) in
      let whole : (length (stored s.world) == size) ≡ true = (==_iff _ _).1 (len ∙ sym sized_n) in
      let (s', run, used) =
        use_block_lem p s₁ s.working_uboot_env env' (stored s.world) ready₁ refl read in
      (
        s',
        ap (λ o. load_content p size count devpath o s₁) content
            ∙ ap
                (λ b.
                  (if b
                      then use_block p (stored s.world)
                      else transfer_fails p (codes "Could not read ") count devpath)
                    s₁)
                whole
            ∙ run,
        used,
      )

module _ {W Fd : Type 0} (p : Platform W Fd) (fuel : ℕ) where
  -- what the seek leaves: the state of the caller, with the size, but for the tries and the world
  seek_ready :
      (n : ℕ) (spec path : Bytes) (count off : ℤ) (writing : Bool) (fd : Fd) (s s₂ : State W)
      → open_spec p (level p fuel) spec writing (sized count s) ≡ (ok (some fd, path), s₂)
      → IsReady p n s
      → IsReady p n (seek_to p fuel fd off s₂)
        × (s₂.working_uboot_env
            ≡ record { env_size = size_of count; vars = s.working_uboot_env.vars })
  seek_ready n spec path count off writing fd s s₂ opens ready =
      let same = open_spec_changes p fuel spec writing (sized count s) opens in
      let ready' : IsReady p n (sized count s) = record {
        aligned = ready.aligned;
        room = ready.room;
        loaded = ready.loaded;
        modified = ready.modified;
      } in
      let back : IsReady p n s₂ = subst (IsReady p n) (sym same) (record {
        aligned = ready.aligned;
        room = ready.room;
        loaded = ready.loaded;
        modified = ready.modified;
      }) in
      (
        record {
          aligned = back.aligned;
          room = back.room;
          loaded = back.loaded;
          modified = back.modified;
        },
        ap (λ x. x.working_uboot_env) same,
      )

module _ {W Fd : Type 0} (p : Platform W Fd) (fuel : ℕ) (sorts : Sorts p.qsort) (stored : W → Bytes)
    (position : Fd → W → ℤ) (block count : ℤ) (fd fd' : Fd)
    (disk : IsDisk p stored position (offset_of block) (size_of count) fd)
    (disk' : IsDisk p stored position (offset_of block) (size_of count) fd') where
  -- Where the variables give both calls the same first block and number of blocks, both open the
  -- device, the area of these blocks has 8 to 2 ^ 63 bytes and the pairs fit it, each pair has a name
  -- with no '=' behind its first byte and no NUL, no name stands twice, the flags exist and the heap
  -- has room for their values, `saveenv` succeeds, and `loadenv`, run in whatever state while the area
  -- keeps what it holds, succeeds and gives every name the value that it had; afterwards the
  -- environment counts as loaded and not as modified. A read or a write anywhere else in the device
  -- than from the first byte of the area on need not do anything.
  pub loadenv-saveenv :
      (s s₂ t t₂ : State W) (spec spec' path path' : Bytes)
      → Locates spec block count s
      → open_spec p (level p fuel) spec true (sized count s) ≡ (ok (some fd, path), s₂)
      → 8 ≤ size_of count
      → size_of count ≤ 2 ^ 63
      → HasRoom (size_of count - 4) s.working_uboot_env.vars
      → All IsValidPair s.working_uboot_env.vars
      → IsDistinct s.working_uboot_env.vars
      → IsReady p 1 s
      → Locates spec' block count t
      → open_spec p (level p fuel) spec' false (sized count t) ≡ (ok (some fd', path'), t₂)
      → stored t₂.world ≡ stored (function_saveenv p (level p fuel) s).1.world
      → IsReady p 3 t
      → (t' : State W) × ((function_saveenv p (level p fuel) s).0 ≡ ok none)
        × (function_loadenv p (level p fuel) t ≡ (ok none, t'))
        × ((name : Bytes)
            → uboot_env_getenv t'.working_uboot_env name
              ≡ uboot_env_getenv s.working_uboot_env name)
        × (value_of t'.variables loaded_name ≡ some (some (boolean true)))
        × (value_of t'.variables modified_name ≡ some (some (boolean false)))
  unfolding function_saveenv function_loadenv uboot_env_getenv
  loadenv-saveenv s s₂ t t₂ spec spec' path path' located open_s big small room valid distinct
        ready_s located' open_t kept ready_t =
      let e = level p fuel in
      let off = offset_of block in
      let n = size_of count in
      let env : Env = record { env_size = n; vars = s.working_uboot_env.vars } in
      let s₁ = seek_to p fuel fd off s₂ in
      let t₁ = seek_to p fuel fd' off t₂ in
      let (ready_s₁, same_s) =
        seek_ready p fuel 1 spec path count off true fd s s₂ open_s ready_s in
      let (ready_t₁, same_t) =
        seek_ready p fuel 3 spec' path' count off false fd' t t₂ open_t ready_t in
      let (bytes, written, len, back) =
        written_block p.qsort sorts env (p.malloc n s₁.world) big small (disk.mallocs s₁.world) room
          valid distinct in
      let written' : uboot_env_write p.qsort s₂.working_uboot_env
            (p.malloc s₂.working_uboot_env.env_size s₁.world)
          ≡ some (success, uboot_env_sort p.qsort env, bytes) =
        ap (λ x. uboot_env_write p.qsort x (p.malloc x.env_size s₁.world)) same_s ∙ written in
      let (s', save, saved) =
        save_opened_lem p stored position off n fd disk s₁ (uboot_env_sort p.qsort env) bytes path
          count ready_s₁ written' (len ∙ sym (ap (λ x. x.env_size) (sort_shape p.qsort env))) len
          (disk.sought s₂.world) in
      let run =
        bind_ok (open_env p e true) (save_opened p) (
          open_env_runs p fuel true spec path block count fd s s₂ located open_s
            (disk.seeks s₂.world))
        ∙ save in
      let holds : stored t₁.world ≡ bytes =
        disk'.seek_keeps t₂.world ∙ kept ∙ ap (λ r. stored r.1.world) run ∙ saved.now in
      let (env', read, same) = back t.working_uboot_env.vars in
      let read' : uboot_env_read t₂.working_uboot_env (stored t₁.world) ≡ some (success, env') =
        ap₂ uboot_env_read same_t holds ∙ read in
      let (t', load, used) =
        load_opened_lem p stored position off n fd' disk' t₁ env' path' count ready_t₁
          (ap (λ x. x.env_size) same_t) (ap length holds ∙ len) (disk'.sought t₂.world) read' in
      (
        t',
        ap (λ r. r.0) run,
        bind_ok (open_env p e false) (load_opened p) (
              open_env_runs p fuel false spec' path' block count fd' t t₂ located' open_t
                (disk'.seeks t₂.world))
            ∙ load,
        λ name. ap (λ x. uboot_env_getenv x name) used.now ∙ same name,
        used.loaded,
        used.modified,
      )
