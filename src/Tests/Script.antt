-- ===== src/Tests/Script.antt =====
-- The interpreter, on a platform that does nothing, and `trim_string_in_place`.
use nerves_initramfs.Base.{
  ℕ, ◌+◌, ◌<◌, ◌≤◌, true, false, [], ◌∷◌, ◌++◌, none, some, ◌≡◌, ◌↔◌, ◌⊎◌, refl, arith,
}
use nerves_initramfs.Base.CString.{Bytes, codes, str_eq, isspace}
use nerves_initramfs.Base.Int.{ℤ, pos, negsuc, ◌-ℤ◌, ltb_ℤ, IsInt}
use nerves_initramfs.Util.{trim_string_in_place, AllBlank, EndsSolid, trim_string_in_place_lem}
use nerves_initramfs.Script.{
  Fun, fun_print, string, number, fun, Terms, end, link, Variable, lookup_function, arity_of,
  function_info_by_fun, function_table, find_info, fun_code,
}
use nerves_initramfs.Script.Machine.{State, Platform, ok, stop, fatal, term_new_fun, heap_size}
use nerves_initramfs.Script.Value.{set_variable, term_gc_heap, inspect}
use nerves_initramfs.Script.Convert.{compare_resolved, term_to_number}
use nerves_initramfs.Script.Numbers.{term_to_number-term_to_string}
use nerves_initramfs.Base.Format.{dec}
use nerves_initramfs.Script.Vars.{value_of, Stored, set_variable-Stored}
use nerves_initramfs.Script.Gc.{IsDistinct, gc_bytes, dupe_bytes, term_gc_heap_lem}
use nerves_initramfs.Script.Run.{evaluator}
use nerves_initramfs.Script.Compare.{compare_numbers}
use nerves_initramfs.Script.Table.{IsCallable, AllCallable, term_new_fun-IsCallable, inspect_total}

abbrev pub idle : Platform (Unit {0}) ℕ
idle = record {
  term_size = 32;
  qsort = λ le pairs. pairs;
  stderr = λ text w. w;
  info = λ text w. w;
  files = λ w writing time. record {
    system = record { open_device = λ path. none; sys_block = none };
    open_path = λ path. none;
  };
  opened = λ fd time w. w;
  lseek = λ fd offset w. (true, w);
  malloc = λ n w. [];
  read = λ fd n w. (none, w);
  write = λ fd block w. (0, w);
  close = λ fd w. w;
  fork = λ argv w. (
    record {
      pipe_opens = true;
      pid = pos 9;
      chunks = codes "1\n" ∷ [];
      waited = pos 9;
      stored = some (pos 0);
    },
    w,
  );
  read_file = λ path w. (none, w);
  list_files = λ path w. ([], w);
  usleep = λ t w. w;
  reboot = λ w. w;
  power_off = λ w. w;
}

abbrev var_x : Variable
var_x = record { name = codes "x"; value = some (number (pos 3)) }

abbrev var_y : Variable
var_y = record { name = codes "y"; value = some (string (codes "hi")) }

abbrev pub two_vars : State (Unit {0})
two_vars = record {
  heap_index = 120;
  variables = var_x ∷ var_y ∷ [];
  working_uboot_env = record { env_size = 0; vars = [] };
  tries = 1000;
  world = tt;
}

set_variable-Stored_example :
    Stored idle.term_size two_vars
      (codes "z")
      (some (number (pos 4)))
      (set_variable idle (codes "z") (some (number (pos 4))) two_vars)
set_variable-Stored_example = set_variable-Stored idle (codes "z") (some (number (pos 4))) two_vars

pub two_vars-IsDistinct : IsDistinct two_vars.variables
unfolding IsDistinct str_eq
two_vars-IsDistinct = ((refl, tt), (tt, tt))

two_vars_fit : gc_bytes idle two_vars.variables ≤ heap_size
unfolding gc_bytes dupe_bytes
two_vars_fit = omega arith

term_gc_heap_lem_example :
    (after : State (Unit {0})) × (term_gc_heap idle two_vars ≡ (ok tt, after))
    × (after.heap_index ≡ gc_bytes idle two_vars.variables)
    × ((name : Bytes) → value_of after.variables name ≡ value_of two_vars.variables name)
term_gc_heap_lem_example =
    term_gc_heap_lem idle two_vars
      ((number (pos 3), refl, tt), ((string (codes "hi"), refl, tt), tt)) two_vars-IsDistinct
      two_vars_fit

near : IsInt (pos 3 -ℤ pos 5)
unfolding ◌-ℤ◌
near = (omega arith, omega arith)

compare_numbers_example :
    (d : ℤ) × (compare_resolved (number (pos 3)) (number (pos 5)) ≡ some d)
    × ((ltb_ℤ d (pos 0) ≡ true) ↔ (ltb_ℤ (pos 3) (pos 5) ≡ true))
    × ((d ≡ pos 0) ↔ (pos 3 ≡ pos 5))
compare_numbers_example = compare_numbers (pos 3) (pos 5) near

abbrev one_parameter : Terms
one_parameter = link (string (codes "hi")) end

one-AllCallable : AllCallable one_parameter
unfolding AllCallable
one-AllCallable = (tt, tt)

term_new_fun-IsCallable_example :
    ((term_new_fun idle (codes "print") one_parameter two_vars ≡ (ok none, two_vars))
      × (lookup_function (codes "print") (arity_of one_parameter) ≡ none))
    ⊎ ((f : Fun) × (lookup_function (codes "print") (arity_of one_parameter) ≡ some f)
        × IsCallable (fun f one_parameter)
        × (((two_vars.heap_index + idle.term_size ≤ heap_size)
              × ((term_new_fun idle (codes "print") one_parameter two_vars).0
                  ≡ ok (some (fun f one_parameter))))
            ⊎ ((heap_size < two_vars.heap_index + idle.term_size)
                × (term_new_fun idle (codes "print") one_parameter two_vars
                    ≡ (stop fatal, two_vars)))))
term_new_fun-IsCallable_example =
    term_new_fun-IsCallable idle (codes "print") one_parameter two_vars one-AllCallable

print-IsCallable : IsCallable (fun fun_print one_parameter)
unfolding IsCallable function_info_by_fun find_info function_table fun_code arity_of
print-IsCallable = (omega arith, (tt, tt))

inspect_total_example : (text : Bytes) × (inspect (fun fun_print one_parameter) ≡ some text)
inspect_total_example = inspect_total (fun fun_print one_parameter) print-IsCallable

trim_string_in_place_lem_example :
    ((trim_string_in_place (codes " hi\n") ≡ none) × AllBlank (codes " hi\n"))
    ⊎ ((before : Bytes) × (c : ℕ) × (rest : Bytes) × (after : Bytes) × (trim_string_in_place
            (codes " hi\n")
          ≡ some (c ∷ rest))
        × (codes " hi\n" ≡ before ++ ((c ∷ rest) ++ after))
        × AllBlank before
        × AllBlank after
        × (isspace c ≡ false)
        × EndsSolid (c ∷ rest))
trim_string_in_place_lem_example = trim_string_in_place_lem (codes " hi\n")

below_zero : IsInt (negsuc 41)
below_zero = (omega arith, omega arith)

term_to_number-term_to_string_example :
    (s' : State (Unit {0})) × (text : Bytes) × ((evaluator idle 1).term_to_string
        (number (negsuc 41))
        two_vars
      ≡ (ok text, s'))
    × (term_to_number idle (evaluator idle 1) (string text) s' ≡ (ok (negsuc 41), s'))
unfolding dec
term_to_number-term_to_string_example =
    term_to_number-term_to_string idle 0 (negsuc 41) two_vars below_zero refl (omega arith)
