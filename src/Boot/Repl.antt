-- ===== src/Boot/Repl.antt =====
-- `repl` of src/nerves_initramfs.c, and `main` with the script and the REPL that it runs. linenoise is
-- a library: what it returns, and what it does with the history, are arguments.
use nerves_initramfs.Base.{ℕ, zero, suc, List, [], ◌∷◌, ◌++◌, Option, none, some}
use nerves_initramfs.Base.CString.{Bytes, codes}
use nerves_initramfs.Script.{Term}
use nerves_initramfs.Script.Machine.{
  Platform, no_fuel, M, pure, halt, gets, does, asks, ◌>>=◌, ◌>>◌,
}
use nerves_initramfs.Script.Run.{evaluator}
use nerves_initramfs.Script.Lexer.{Lexeme}
use nerves_initramfs.Script.Grammar.{eval_string, eval_file}
use nerves_initramfs.Script.Grammar.Trees.{Parsed}
use nerves_initramfs.Boot.Kernel.{Kernel, B}
use nerves_initramfs.Boot.Main.{main}

-- `linenoise(prompt)`, where `none` is NULL; `linenoiseHistoryAdd`; what `printf` writes; and the bytes
-- of /nerves_initramfs.conf, `none` where it does not open, with its length. `held` is what the buffer
-- of flex holds when a line is given to it: the rest of a script or a line whose parse failed.
pub record Console (W : Type 0) : Type 0 where
  pub linenoise : Bytes → W → Option Bytes × W
  pub history_add : Bytes → W → W
  pub stdout : Bytes → W → W
  pub held : W → Bytes
  pub conf : W → Option Bytes × ℕ

module _ {W Fd : Type 0} (p : Platform W Fd) (c : Console W) (fuel ulong_max : ℕ)
    (parse : List Lexeme → Parsed) (lexer_max : ℕ) where
  -- `parser_result`, where it is not NULL
  unfoldable pub print_result : Option Term → M W (Unit {0})
  print_result none = pure tt
  print_result (some t) = do
    text ← (evaluator p fuel).term_to_string t
    does (c.stdout (text ++ codes "\n"))

  -- on as much fuel as lines are read, and one more
  unfoldable pub repl_loop : ℕ → M W (Unit {0})
  repl_loop zero = halt no_fuel
  repl_loop (suc lines) = do
    line ← asks (c.linenoise (codes "nerves_initramfs> "))
    elim line [
      | none ↦ pure tt
      | some line ↦ do
        does (c.history_add line)
        held ← gets (λ s. c.held s.world)
        (status, parser_result) ← eval_string p fuel ulong_max parse lexer_max held line
        print_result parser_result
        repl_loop lines
    ]

  unfoldable pub repl : ℕ → M W (Unit {0})
  unfolding repl_loop
  repl lines = do does (c.stdout (27 ∷ codes "[0m")); repl_loop lines

  -- the script is the first input of flex
  unfoldable pub run_conf : M W (Unit {0})
  run_conf = do
    (file, len) ← gets (λ s. c.conf s.world)
    eval_file p fuel ulong_max parse lexer_max [] file len
    pure tt

  -- `main` on its `argv`
  unfoldable pub boot : Kernel → ℕ → List Bytes → B W (Unit {0})
  boot k lines argv = main k p fuel run_conf (repl lines) argv
