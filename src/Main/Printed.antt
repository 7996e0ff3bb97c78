-- ===== src/Main/Printed.antt =====
-- The flags of `cmd_run` in main.rs, written out as arguments and read back.
use mathlib.Core.List.{append-nil, append_assoc}
use native.Mathlib.Nat.{pow-suc}
use toolcage.Prelude.{
  ℕ, zero, suc, ◌+◌, ◌*◌, ◌-◌, ◌/◌, ◌%◌, ◌^◌, ◌<◌, ◌≤◌, ◌≡◌, inl, inr, refl, sym, ap, ◌∙◌, Text,
  text, text_eq, Bool, true, false, List, [], ◌∷◌, ◌++◌, Option, none, some, ok, ltb, Bool-cases,
  ◌==◌, leb, ◌&&◌, if◌then◌else◌, arith,
}
use toolcage.Audit.Clock.{digits_of}
use toolcage.Sandbox.{shown_nat}
use toolcage.Main.Flags.{
  is_flag, value, parse_digits, parse_unsigned, parse_usize, RunFlags, no_run_flags, RunFlag,
  module_, policy, audit, page_size, run_flag, set_flag, takes_value, run_flags,
}

-- A digit at the end of the digits so far.
parse_digits-digit :
    (acc d k : ℕ) (rest : Text)
    → d < 10
    → acc * 10 + d ≡ k
    → k < 2 ^ 64
    → parse_digits acc ((48 + d) ∷ rest) ≡ parse_digits k rest
unfolding parse_digits
parse_digits-digit acc d k rest small next fits =
    let e : acc * 10 + (48 + d - 48) ≡ k = omega arith in
    let t : (leb 48 (48 + d) && (leb (48 + d) 57 && ltb (acc * 10 + (48 + d - 48)) (2 ^ 64)))
        ≡ true =
      ground arith in
    rw (t, parse_digits) (ap (λ m. parse_digits m rest) e)

digits_of-small : (fuel n : ℕ) → n < 10 → digits_of (suc fuel) n ≡ (48 + n) ∷ []
unfolding digits_of
digits_of-small fuel n h = let e : ltb n 10 ≡ true = ground arith in rw (e, digits_of) refl

digits_of-large :
    (fuel n : ℕ) → 10 ≤ n → digits_of (suc fuel) n ≡ digits_of fuel (n / 10) ++ (48 + n % 10) ∷ []
unfolding digits_of
digits_of-large fuel n h = let e : ltb n 10 ≡ false = ground arith in rw (e, digits_of) refl

digits_left : (fuel n : ℕ) → n < 10 ^ suc (suc fuel) → n / 10 < 10 ^ suc fuel
digits_left fuel n h = omega (arith, pow-suc 10 (suc fuel))

-- The printed digits are read as the number, whatever follows.
parse_digits-digits_of :
    (fuel n : ℕ) (rest : Text)
    → n < 10 ^ suc fuel
    → n < 2 ^ 64
    → parse_digits 0 (digits_of (suc fuel) n ++ rest) ≡ parse_digits n rest
parse_digits-digits_of zero n rest h fits =
    rw (digits_of-small zero n (omega arith))
      (parse_digits-digit 0 n n rest (omega arith) (omega arith) (omega arith))
parse_digits-digits_of (suc fuel) n rest h fits = elim (Bool-cases (ltb n 10)) [
  | inl e ↦
      rw (digits_of-small (suc fuel) n (ground arith))
        (parse_digits-digit 0 n n rest (ground arith) (omega arith) (omega arith))
  | inr e ↦
      let big : 10 ≤ n = ground arith in
      ap (λ t. parse_digits 0 (t ++ rest)) (digits_of-large (suc fuel) n big)
      ∙ ap (parse_digits 0) (append_assoc (digits_of (suc fuel) (n / 10)) ((48 + n % 10) ∷ []) rest)
      ∙ parse_digits-digits_of fuel (n / 10) ((48 + n % 10) ∷ rest) (digits_left fuel n h)
          (omega arith)
      ∙ parse_digits-digit (n / 10) (n % 10) n rest (omega arith) (omega arith) (omega arith)
]

-- They start with a digit.
digits_of-cons :
    (fuel n : ℕ)
    → n < 10 ^ suc fuel
    → (c : ℕ) × (rest : Text) × (digits_of (suc fuel) n ≡ c ∷ rest) × (48 ≤ c)
digits_of-cons zero n h = (48 + n, [], digits_of-small zero n (omega arith), omega arith)
digits_of-cons (suc fuel) n h = elim (Bool-cases (ltb n 10)) [
  | inl e ↦ (48 + n, [], digits_of-small (suc fuel) n (ground arith), omega arith)
  | inr e ↦
      let (c, rest, q, k) = digits_of-cons fuel (n / 10) (digits_left fuel n h) in
      (
        c,
        rest ++ (48 + n % 10) ∷ [],
        digits_of-large (suc fuel) n (ground arith) ∙ ap (λ t. t ++ (48 + n % 10) ∷ []) q,
        k,
      )
]

parse_usize-cons :
    (c : ℕ) (rest : Text) → 48 ≤ c → parse_usize (c ∷ rest) ≡ parse_digits 0 (c ∷ rest)
unfolding parse_usize parse_unsigned
parse_usize-cons c rest h = let e : (c == b'+') ≡ false = ground arith in rw (e, parse_usize) refl

is_flag-cons : (c : ℕ) (rest : Text) → 48 ≤ c → is_flag (c ∷ rest) ≡ false
unfolding is_flag
is_flag-cons c [] h = refl
is_flag-cons c (d ∷ rest) h = ground arith

-- What `{}` prints of a u64, `str::parse` reads back, and it does not look like a flag.
parse_usize-shown_nat :
    (n : ℕ) → n < 2 ^ 64 → (parse_usize (shown_nat n) ≡ some n) × (is_flag (shown_nat n) ≡ false)
unfolding shown_nat parse_digits
parse_usize-shown_nat n h =
    let (c, rest, q, k) = digits_of-cons 19 n (omega arith) in
    (
      ap parse_usize q
          ∙ parse_usize-cons c rest k
          ∙ ap (parse_digits 0) (sym q ∙ sym (append-nil (digits_of 20 n)))
          ∙ parse_digits-digits_of 19 n [] (omega arith) h,
      ap is_flag q ∙ is_flag-cons c rest k,
    )

-- The flags as arguments.
abbrev option_args : Text → Option Text → List Text
option_args flag none = []
option_args flag (some v) = flag ∷ v ∷ []

unfoldable pub print_flags : RunFlags → List Text
print_flags f =
    option_args (text "--module") f.module_path
    ++ (option_args (text "--policy") f.policy_path
        ++ (option_args (text "--audit") f.audit_path
            ++ (text "--page-size"
                ∷ shown_nat f.page_size
                ∷ (if f.debug_guest_stderr then text "--debug-guest-stderr" ∷ [] else []))))

-- A path that is not taken for a flag.
abbrev pub IsValue : Option Text → Type 0
IsValue none = Unit
IsValue (some v) = is_flag v ≡ false

module _ (debug_str : Text → Text) where
  run_flags-value :
      (a v : Text) (rest : List Text) (k : RunFlag) (f g : RunFlags)
      → run_flag a ≡ some k
      → takes_value k ≡ true
      → is_flag v ≡ false
      → set_flag k v f ≡ ok g
      → run_flags debug_str (a ∷ v ∷ rest) f ≡ run_flags debug_str rest g
  unfolding run_flags value
  run_flags-value a v rest k f g e t n s = rw (e, run_flags, t, n, value, s) refl

  run_flags-option :
      (a : Text) (k : RunFlag) (set : Option Text → RunFlags) (o : Option Text) (rest : List Text)
      → run_flag a ≡ some k
      → takes_value k ≡ true
      → ((v : Text) → set_flag k v (set none) ≡ ok (set (some v)))
      → IsValue o
      → run_flags debug_str (option_args a o ++ rest) (set none) ≡ run_flags debug_str rest (set o)
  run_flags-option a k set none rest e t s h = refl
  run_flags-option a k set (some v) rest e t s h =
      run_flags-value a v rest k (set none) (set (some v)) e t h (s v)

  run_flags-debug :
      (f : RunFlags) (b : Bool)
      → f.debug_guest_stderr ≡ false
      → run_flags debug_str (if b then text "--debug-guest-stderr" ∷ [] else []) f
        ≡ ok (record f { debug_guest_stderr = b })
  unfolding run_flags run_flag text text_eq
  run_flags-debug f true e = refl
  run_flags-debug f false e = ap (λ b. ok (record f { debug_guest_stderr = b })) e

-- Whatever flags `toolcage run` is to have, written out as arguments in their order, it reads them
-- back: the paths, the page size and the switch. No path starts with `--`, and the page size fits
-- 64 bits.
pub run_flags-print_flags :
    (debug_str : Text → Text) (f : RunFlags)
    → IsValue f.module_path
    → IsValue f.policy_path
    → IsValue f.audit_path
    → f.page_size < 2 ^ 64
    → run_flags debug_str (print_flags f) no_run_flags ≡ ok f
unfolding print_flags run_flag text text_eq set_flag
run_flags-print_flags debug_str f m p a n =
    let (read, plain) = parse_usize-shown_nat f.page_size n in
    run_flags-option debug_str (text "--module") module_
      (λ o. record no_run_flags { module_path = o }) f.module_path _ refl refl (λ v. refl) m
    ∙ run_flags-option debug_str (text "--policy") policy
        (λ o. record no_run_flags { module_path = f.module_path; policy_path = o }) f.policy_path _
        refl refl (λ v. refl) p
    ∙ run_flags-option debug_str (text "--audit") audit
        (λ o. record f { audit_path = o; page_size = 0; debug_guest_stderr = false }) f.audit_path _
        refl refl (λ v. refl) a
    ∙ run_flags-value debug_str (text "--page-size") (shown_nat f.page_size) _ page_size
        (record f { page_size = 0; debug_guest_stderr = false })
        (record f { debug_guest_stderr = false }) refl refl plain (rw (read) refl)
    ∙ run_flags-debug debug_str (record f { debug_guest_stderr = false }) f.debug_guest_stderr refl
