-- ===== src/Main/Arguments.antt =====
-- src/main.rs, the command line.
use mathlib.Core.Path.{subst}
use iosock.Prelude.{
  ◌≡◌, ◌↔◌, refl, sym, ◌∙◌, true, false, Option, none, some, List, [], ◌∷◌, ◌==◌, Bool-cases, inl,
  inr, ==_iff, arith,
}
use iosock.Main.{
  Text, is_text, is_pty_flag, short_flag, long_flag, Invocation, parse_args, with_command,
  after_flag,
}

-- The flag as the README has it: "-p" or "--pty".
pub data PtyFlag : Text → Type 0 where
  p_flag : PtyFlag (45 ∷ 112 ∷ [])
  pty_flag : PtyFlag (45 ∷ 45 ∷ 112 ∷ 116 ∷ 121 ∷ [])

-- The command lines that ask for an invocation: [-p|--pty] SOCKET_PATH PROGRAM ARGS...
pub data Spells : List Text → Invocation → Type 0 where
  with_pty :
      (flag sock_path program : Text) (args : List Text)
      → PtyFlag flag
      → Spells
          (flag ∷ sock_path ∷ program ∷ args)
          (record { use_pty = true; sock_path = sock_path; program = program; program_args = args })
  without_pty :
      (sock_path program : Text) (args : List Text)
      → (PtyFlag sock_path → ⊥)
      → Spells (sock_path ∷ program ∷ args) (record {
        use_pty = false;
        sock_path = sock_path;
        program = program;
        program_args = args;
      })

is_text_sound : (s t : Text) → is_text s t ≡ true → s ≡ t
is_text_sound [] [] e = refl
is_text_sound [] (y ∷ t) e = cc
is_text_sound (x ∷ s) [] e = cc
is_text_sound (x ∷ s) (y ∷ t) e = elim (Bool-cases (x == y)) [
  | inl k ↦
      let r : is_text s t ≡ true = ground (arith, e, k) in
      let q : x ≡ y = (==_iff x y).0 k in let p : s ≡ t = is_text_sound s t r in rw (q, p) refl
  | inr k ↦ let f : false ≡ true = ground (arith, e, k) in cc
]

is_pty_flag_sound : (s : Text) → is_pty_flag s ≡ true → PtyFlag s
is_pty_flag_sound s e = elim (Bool-cases (is_text s short_flag)) [
  | inl k ↦ subst PtyFlag (sym (is_text_sound s short_flag k)) p_flag
  | inr k ↦
      let m : is_text s long_flag ≡ true = ground (arith, e, k) in
      subst PtyFlag (sym (is_text_sound s long_flag m)) pty_flag
]

is_pty_flag_complete : (s : Text) → PtyFlag s → is_pty_flag s ≡ true
is_pty_flag_complete s p_flag = refl
is_pty_flag_complete s pty_flag = refl

is_pty_flag_refuses : (s : Text) → (PtyFlag s → ⊥) → is_pty_flag s ≡ false
is_pty_flag_refuses s h = elim (Bool-cases (is_pty_flag s)) [
  | inl e ↦ elim (h (is_pty_flag_sound s e)) [ ]
  | inr e ↦ e
]

-- An answer of `parse_args` spells the arguments.
abbrev Read : List Text → Option Invocation → Type 0
Read args none = Unit
Read args (some i) = Spells args i

read_flag : (flag : Text) (rest : List Text) → PtyFlag flag → Read (flag ∷ rest) (after_flag rest)
read_flag flag [] p = tt
read_flag flag (path ∷ []) p = tt
read_flag flag (path ∷ program ∷ args) p = with_pty flag path program args p

read_plain :
    (path : Text) (rest : List Text)
    → (PtyFlag path → ⊥)
    → Read (path ∷ rest) (with_command false path rest)
read_plain path [] n = tt
read_plain path (program ∷ args) n = without_pty path program args n

parse_args-Read : (args : List Text) → Read args (parse_args args)
unfolding parse_args
parse_args-Read [] = tt
parse_args-Read (s ∷ rest) = elim (Bool-cases (is_pty_flag s)) [
  | inl e ↦ rw e (read_flag s rest (is_pty_flag_sound s e))
  | inr e ↦ rw e (
      read_plain s rest
        (λ p. let f : false ≡ true = sym e ∙ is_pty_flag_complete s p in elim (clash f) [ ]))
]
  where
    clash : false ≡ true → ⊥
    clash f = cc

spelled : (args : List Text) (i : Invocation) → Spells args i → parse_args args ≡ some i
unfolding parse_args
spelled args i (with_pty flag path program rest p) = rw (is_pty_flag_complete flag p) refl
spelled args i (without_pty path program rest n) = rw (is_pty_flag_refuses path n) refl

-- `parse_args` reads the arguments as an invocation exactly if they spell it, with "-p" or "--pty"
-- first for a pseudo-terminal, and with a path of the socket that is neither of them otherwise; it
-- reads no other arguments.
pub parse_args-Spells :
    (args : List Text) (i : Invocation) → (parse_args args ≡ some i) ↔ Spells args i
parse_args-Spells args i = (λ e. subst (Read args) e (parse_args-Read args), spelled args i)
