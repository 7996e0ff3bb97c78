-- ===== src/Main/Flags.antt =====
-- The flags of the commands in main.rs: `FlagParser`, and the loops of `cmd_run`, `cmd_inspect` and
-- `cmd_check` over the arguments. A parser is the list of the arguments from its `pos` on.
use toolcage.Prelude.{
  ℕ, ◌+◌, ◌*◌, ◌-◌, ◌^◌, Text, text, text_eq, Bool, true, false, ◌&&◌, List, [], ◌∷◌, ◌++◌, Option,
  none, some, Result, ok, err, ltb, leb, ◌==◌, if◌then◌else◌,
}

-- `v.starts_with("--")`
unfoldable pub is_flag : Text → Bool
is_flag (a ∷ (b ∷ rest)) = (a == b'-') && (b == b'-')
is_flag (a ∷ []) = false
is_flag [] = false

unfoldable pub requires_value : Text → Text
requires_value flag = flag ++ text " requires a value"

-- `FlagParser::value`
unfoldable pub value : Text → List Text → Result Text Text
unfolding requires_value
value flag [] = err (requires_value flag)
value flag (v ∷ rest) = if is_flag v then err (requires_value flag) else ok v

-- `str::parse::<usize>` on digits.
unfoldable pub parse_digits : ℕ → Text → Option ℕ
parse_digits acc [] = some acc
parse_digits acc (c ∷ rest) =
    let next = acc * 10 + (c - 48) in
    elim (leb 48 c && (leb c 57 && ltb next (2 ^ 64))) [
      | true ↦ parse_digits next rest
      | false ↦ none
    ]

-- It takes one sign `+`.
unfoldable pub parse_unsigned : Text → Option ℕ
parse_unsigned [] = none
parse_unsigned (c ∷ rest) = parse_digits 0 (c ∷ rest)

unfoldable pub parse_usize : Text → Option ℕ
parse_usize [] = none
parse_usize (c ∷ rest) = if c == b'+' then parse_unsigned rest else parse_unsigned (c ∷ rest)

pub record RunFlags : Type 0 where
  pub module_path : Option Text
  pub policy_path : Option Text
  pub audit_path : Option Text
  pub page_size : ℕ
  pub debug_guest_stderr : Bool

abbrev pub no_run_flags : RunFlags
no_run_flags = record {
  module_path = none;
  policy_path = none;
  audit_path = none;
  page_size = 0;
  debug_guest_stderr = false;
}

-- The flags that take a value, and the one that does not.
pub data RunFlag : Type 0 where
  module_ policy audit page_size debug : RunFlag

unfoldable pub run_flag : Text → Option RunFlag
run_flag a =
    if text_eq a (text "--module")
    then some module_
    else if text_eq a (text "--policy")
    then some policy
    else if text_eq a (text "--audit")
    then some audit
    else if text_eq a (text "--page-size")
    then some page_size
    else if text_eq a (text "--debug-guest-stderr")
    then some debug
    else none

abbrev set_page_size : RunFlags → Option ℕ → Result Text RunFlags
set_page_size f none = err (text "--page-size requires a non-negative integer")
set_page_size f (some n) = ok (record f { page_size = n })

-- What a flag's value does.
unfoldable pub set_flag : RunFlag → Text → RunFlags → Result Text RunFlags
set_flag module_ v f = ok (record f { module_path = some v })
set_flag policy v f = ok (record f { policy_path = some v })
set_flag audit v f = ok (record f { audit_path = some v })
set_flag page_size v f = set_page_size f (parse_usize v)
set_flag debug v f = ok f

abbrev pub takes_value : RunFlag → Bool
takes_value debug = false
takes_value module_ = true
takes_value policy = true
takes_value audit = true
takes_value page_size = true

module _ (debug_str : Text → Text) where
  unfoldable pub unknown_flag : Text → Text
  unknown_flag a = text "unknown flag " ++ debug_str a

  -- The loop of `cmd_run`. A flag that takes a value takes the next argument with it.
  unfoldable pub run_flags : List Text → RunFlags → Result Text RunFlags
  run_flags [] f = ok f
  run_flags (a ∷ []) f = elim (run_flag a) [
    | none ↦ err (unknown_flag a)
    | some k ↦ elim (takes_value k) [
      | true ↦ elim (value a []) [ err e ↦ err e | ok v ↦ set_flag k v f ]
      | false ↦ ok (record f { debug_guest_stderr = true })
    ]
  ]
  run_flags (a ∷ b ∷ rest) f = elim (run_flag a) [
    | none ↦ err (unknown_flag a)
    | some k ↦ elim (takes_value k) [
      | true ↦ elim (value a (b ∷ rest)) [
        | err e ↦ err e
        | ok v ↦ elim (set_flag k v f) [ err e ↦ err e | ok g ↦ run_flags rest g ]
      ]
      | false ↦ run_flags (b ∷ rest) (record f { debug_guest_stderr = true })
    ]
  ]

  -- The loop of `cmd_inspect`: the module, and whether to print JSON.
  unfoldable pub inspect_flags : List Text → Option Text × Bool → Result Text (Option Text × Bool)
  inspect_flags [] f = ok f
  inspect_flags (a ∷ []) (module_path, as_json) =
      if text_eq a (text "--module")
      then elim (value a []) [ err e ↦ err e | ok v ↦ ok (some v, as_json) ]
      else if text_eq a (text "--json")
      then ok (module_path, true)
      else err (unknown_flag a)
  inspect_flags (a ∷ b ∷ rest) (module_path, as_json) = elim (text_eq a (text "--module")) [
    | true ↦ elim (value a (b ∷ rest)) [
      | err e ↦ err e
      | ok v ↦ inspect_flags rest (some v, as_json)
    ]
    | false ↦ elim (text_eq a (text "--json")) [
      | true ↦ inspect_flags (b ∷ rest) (module_path, true)
      | false ↦ err (unknown_flag a)
    ]
  ]

  -- The loop of `cmd_check`.
  unfoldable pub check_flags : List Text → Option Text → Result Text (Option Text)
  check_flags [] f = ok f
  check_flags (a ∷ []) f =
      if text_eq a (text "--policy")
      then (elim (value a []) [ err e ↦ err e | ok v ↦ ok (some v) ])
      else err (unknown_flag a)
  check_flags (a ∷ b ∷ rest) f = elim (text_eq a (text "--policy")) [
    | true ↦ elim (value a (b ∷ rest)) [ err e ↦ err e | ok v ↦ check_flags rest (some v) ]
    | false ↦ err (unknown_flag a)
  ]
