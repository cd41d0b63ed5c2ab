-- ===== src/Failover/State.antt =====
-- internal/ai/provider_state.go and fallback.go: the position in the chain that is saved with a
-- session, and the chain that is built again from it. The version and the position are natural
-- numbers, so a saved negative position is not represented. `trim` and `lower` are
-- strings.TrimSpace and strings.ToLower.
pub mod Resume
use qi.Base.{
  ℕ, suc, Text, codes, Bool, true, false, ◌&&◌, ◌||◌, not, ◌==◌, nat_eq, leb, Option, none, some,
  List, [], ◌∷◌, ◌++◌, length, Result, ok, err, if◌then◌else◌, contains,
}
use qi.Failover.{FallbackEntry, FallbackLlm}

abbrev pub provider_state_version : ℕ
provider_state_version = 1

pub record ProviderStateEntry : Type 0 where
  pub provider : Text
  pub model : Text
  pub config_id : Text

pub record ProviderState : Type 0 where
  pub version : ℕ
  pub entries : List ProviderStateEntry
  pub active : ℕ

pub data StateError : Type 0 where
  unsupported_version out_of_range entry_mismatch : ℕ → StateError
  not_normalized bad_config_id duplicate_identity no_llm : Text → StateError
  no_entries entries_do_not_match : StateError

abbrev pub known_providers : List Text
known_providers =
    codes "anthropic"
    ∷ codes "ollama"
    ∷ codes "openai"
    ∷ codes "kimi"
    ∷ codes "opencode"
    ∷ codes "zai"
    ∷ []

abbrev pub at_start : List ProviderStateEntry → ProviderState
at_start ss = record { version = provider_state_version; entries = ss; active = 0 }

-- A digit that hex.DecodeString takes and strings.ToLower leaves.
unfoldable pub is_lower_hex : ℕ → Bool
is_lower_hex c = (leb 48 c && leb c 57) || (leb 97 c && leb c 102)

unfoldable pub all_lower_hex : Text → Bool
unfolding is_lower_hex
all_lower_hex [] = true
all_lower_hex (c ∷ s) = is_lower_hex c && all_lower_hex s

unfoldable pub is_canonical_config_id : Text → Bool
unfolding all_lower_hex
is_canonical_config_id v = nat_eq (length v) 64 && all_lower_hex v

abbrev pub identity_of : ProviderStateEntry → Text
identity_of e = e.provider ++ 0 ∷ e.model ++ 0 ∷ e.config_id

-- a != b on the struct
unfoldable pub entry_eq : ProviderStateEntry → ProviderStateEntry → Bool
entry_eq a b = a.provider == b.provider && (a.model == b.model && a.config_id == b.config_id)

-- The loop that compares the entries, from `index` on.
unfoldable pub match_entries :
    ℕ → List ProviderStateEntry → List ProviderStateEntry → Option StateError
unfolding entry_eq
match_entries index [] bs = none
match_entries index (a ∷ more) [] = none
match_entries index (a ∷ more) (b ∷ bs) =
    let rest = match_entries (suc index) more bs in
    if entry_eq a b then rest else some (entry_mismatch index)

-- The loop of providerStateFromEntries.
unfoldable pub state_entries :
    {Q R W : Type 0} → List (FallbackEntry Q R W) → Result StateError (List ProviderStateEntry)
state_entries [] = ok []
state_entries (e ∷ es) = elim e.llm [
  | none ↦ err (no_llm e.provider)
  | some llm ↦ elim (state_entries es) [
    | err x ↦ err x
    | ok ss ↦ ok (record { provider = e.provider; model = e.model; config_id = e.config_id } ∷ ss)
  ]
]

module _ (trim lower : Text → Text) where
  unfoldable pub parse_provider : Text → Option Text
  parse_provider s =
      let name = lower (trim s) in
      if name == []
      then some []
      else if name == codes "z.ai"
      then some (codes "zai")
      else if name == codes "moonshot"
      then some (codes "kimi")
      else if contains name known_providers
      then some name
      else none

  unfoldable pub is_normalized : Text → Bool
  unfolding parse_provider
  is_normalized s = elim (parse_provider s) [ none ↦ false | some p ↦ not (p == []) && p == s ]

  -- The loop over the entries, with the identities that were seen.
  unfoldable pub validate_entries : List Text → List ProviderStateEntry → Option StateError
  unfolding is_normalized is_canonical_config_id
  validate_entries seen [] = none
  validate_entries seen (e ∷ es) =
      let rest = validate_entries (identity_of e ∷ seen) es in
      if not (is_normalized e.provider)
      then some (not_normalized e.provider)
      else if not (is_canonical_config_id e.config_id)
      then some (bad_config_id e.provider)
      else if contains (identity_of e) seen
      then some (duplicate_identity e.provider)
      else rest

  unfoldable pub validate_state : ProviderState → Option StateError
  unfolding validate_entries
  validate_state s =
      if not (nat_eq s.version provider_state_version)
      then some (unsupported_version s.version)
      else if nat_eq (length s.entries) 0
      then some no_entries
      else if leb (length s.entries) s.active
      then some (out_of_range s.active)
      else validate_entries [] s.entries

  module _ {Q R W : Type 0} where
    unfoldable pub state_from_entries : List (FallbackEntry Q R W) → Result StateError ProviderState
    unfolding state_entries validate_state
    state_from_entries es = elim (state_entries es) [
      | err x ↦ err x
      | ok ss ↦ elim (validate_state (at_start ss)) [ some x ↦ err x | none ↦ ok (at_start ss) ]
    ]

    unfoldable pub provider_state : FallbackLlm Q R W → Result StateError ProviderState
    unfolding state_from_entries
    provider_state f = elim (state_from_entries f.entries) [
      | err x ↦ err x
      | ok s ↦ ok (record s { active = f.active })
    ]

    unfoldable pub new_from_state :
        List (FallbackEntry Q R W) → ProviderState → Result StateError (FallbackLlm Q R W)
    unfolding validate_state state_from_entries match_entries
    new_from_state es state = elim (validate_state state) [
      | some x ↦ err x
      | none ↦ elim (state_from_entries es) [
        | err x ↦ err x
        | ok s ↦
            if not (nat_eq (length s.entries) (length state.entries))
            then err entries_do_not_match
            else elim (match_entries 0 s.entries state.entries) [
              | some x ↦ err x
              | none ↦ ok (record { entries = es; active = state.active })
            ]
      ]
    ]
