-- ===== src/Script/Location.antt =====
-- `loadenv` and `saveenv` of src/script.c, up to the seek: the device is opened, and positioned.
use nerves_initramfs.Base.{ℕ, Bool, true, Option, none, some, ◌≡◌, ◌∙◌, ap, if◌then◌else◌}
use nerves_initramfs.Base.CString.{Bytes, codes}
use nerves_initramfs.Base.Int.{ℤ, wrap, scale}
use nerves_initramfs.Script.Defs.{string, number}
use nerves_initramfs.Script.Machine.{State, Platform, ok, ◌>>◌, pure, does}
use nerves_initramfs.Script.Vars.{value_of}
use nerves_initramfs.Script.Convert.{get_variable_as_string, get_variable_as_number}
use nerves_initramfs.Script.Reads.{level, string_variable, number_variable}
use nerves_initramfs.Script.Flags.{bind_ok}
use nerves_initramfs.Script.Storage.{path_name, to_size, open_spec, open_env, seek_fails}

-- The byte that a block starts at, an `int`.
abbrev pub offset_of : ℤ → ℤ
offset_of block = wrap (scale 512 block)

-- The bytes of some blocks, a `size_t`.
abbrev pub size_of : ℤ → ℕ
size_of count = to_size (wrap (scale 512 count))

module _ {W : Type 0} where
  -- The variables say where the environment is.
  pub record Locates (spec : Bytes) (block count : ℤ) (s : State W) : Type 0 where
    pub path : value_of s.variables path_name ≡ some (some (string spec))
    pub start : value_of s.variables (codes "uboot_env.start") ≡ some (some (number block))
    pub blocks : value_of s.variables (codes "uboot_env.count") ≡ some (some (number count))

  -- the state with the size of the environment
  abbrev pub sized : ℤ → State W → State W
  sized count s = record s {
    working_uboot_env = record s.working_uboot_env { env_size = size_of count };
  }

module _ {W Fd : Type 0} (p : Platform W Fd) (fuel : ℕ) where
  -- the state behind the seek
  abbrev pub seek_to : Fd → ℤ → State W → State W
  seek_to fd off s = record s { world = (p.lseek fd off s.world).1 }

  pub open_env_runs :
      (writing : Bool) (spec path : Bytes) (block count : ℤ) (fd : Fd) (s s₂ : State W)
      → Locates spec block count s
      → open_spec p (level p fuel) spec writing (sized count s) ≡ (ok (some fd, path), s₂)
      → (p.lseek fd (offset_of block) s₂.world).0 ≡ true
      → open_env p (level p fuel) writing s
        ≡ (ok (some (fd, count, path)), seek_to fd (offset_of block) s₂)
  unfolding open_env
  open_env_runs writing spec path block count fd s s₂ located opens seeks =
      let e = level p fuel in
      let found : Option (Fd × ℤ × Bytes) = some (fd, count, path) in
      bind_ok (get_variable_as_string p e path_name) _
        (string_variable p fuel _ spec s located.path)
      ∙ bind_ok (get_variable_as_number p e (codes "uboot_env.start")) _
          (number_variable p fuel _ block s located.start)
      ∙ bind_ok (get_variable_as_number p e (codes "uboot_env.count")) _
          (number_variable p fuel _ count s located.blocks)
      ∙ bind_ok (open_spec p e spec writing) _ opens
      ∙ ap
          (λ sought.
            (if sought
                then pure found
                else seek_fails p block path >> (does (p.close fd) >> pure none))
              (seek_to fd (offset_of block) s₂))
          seeks
