-- ===== src/Log/Level.antt =====
-- The names of the levels.
use echo_web_server.Prelude.{◌≡◌, ◌↔◌, refl, ◌++◌, some, inl, inr, ◌⊎◌, arith, Option-cases}
use echo_web_server.Run.{Bytes, codes, returned, raise, invalid_argument}
use echo_web_server.Text.{string_to_upper}
use echo_web_server.Http.{lookup}
use echo_web_server.Http.Tables.{lookup-All}
use echo_web_server.Log.{
  LogLevel, debug, info, warn, error, fatal, level_to_string, levels, string_to_level,
}

-- The names in upper case.
abbrev pub upper_name : LogLevel → Bytes
upper_name level = string_to_upper (level_to_string level)

named : (s : Bytes) {level : LogLevel} → lookup s levels ≡ some level → s ≡ upper_name level
unfolding level_to_string string_to_upper
named s = lookup-All (λ k l. k ≡ upper_name l) s levels (refl, (refl, (refl, (refl, (refl, tt)))))

lookup-upper_name : (level : LogLevel) → lookup (upper_name level) levels ≡ some level
unfolding lookup level_to_string string_to_upper
lookup-upper_name debug = refl
lookup-upper_name info = refl
lookup-upper_name warn = refl
lookup-upper_name error = refl
lookup-upper_name fatal = refl

accepted :
    (s : Bytes) (level : LogLevel)
    → string_to_upper s ≡ upper_name level
    → string_to_level s ≡ returned level
unfolding string_to_level
accepted s level e =
    let known : lookup (string_to_upper s) levels ≡ some level = rw e (lookup-upper_name level) in
    rw (known, string_to_level)

-- `StringToLevel` accepts exactly the texts that are the name of a level but for the case of their
-- letters, as that level, so it undoes `LevelToString`; any other text makes it throw
-- `std::invalid_argument`.
pub string_to_level_iff :
    (s : Bytes) (level : LogLevel)
    → ((string_to_level s ≡ returned level) ↔ (string_to_upper s ≡ upper_name level))
      × (string_to_level (level_to_string level) ≡ returned level)
      × (((l : LogLevel) × (string_to_level s ≡ returned l))
          ⊎ (string_to_level s
              ≡ raise (
                  invalid_argument
                    (codes "Invalid log level: '" ++ (string_to_upper s ++ codes "'")))))
unfolding string_to_level
string_to_level_iff s level = (
  (accepts, accepted s level),
  accepted (level_to_string level) level refl,
  elim (Option-cases (lookup (string_to_upper s) levels)) [
    | inl unknown ↦ inr (rw (unknown, string_to_level))
    | inr (l, known) ↦ inl (l, accepted s l (named _ known))
  ],
)
  where
    accepts : string_to_level s ≡ returned level → string_to_upper s ≡ upper_name level
    accepts e = elim (Option-cases (lookup (string_to_upper s) levels)) [
      | inl unknown ↦ absurd (cc (rw (unknown, string_to_level) at e))
      | inr (l, known) ↦
          let same : l ≡ level = ground (arith, rw (known, string_to_level) at e) in
          rw (← same) (named _ known)
    ]
