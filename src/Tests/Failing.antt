-- ===== src/Tests/Failing.antt =====
-- A chain whose first provider is out of quota.
use qi.Base.{
  refl, zero, suc, leb, contains, ◌==◌, if◌then◌else◌, ℕ, ◌+◌, [], ◌∷◌, Text, codes, some, ◌≡◌,
  false, ok, err, drop, length,
}
use qi.Failover.{Failure, FallbackLlm, generate}
use qi.Failover.State.{
  ProviderState, ProviderStateEntry, provider_state, new_from_state, out_of_range,
}
use qi.Failover.State.Resume.{new_from_state-provider_state}
use qi.Failover.Walk.{Walk, generate_lem}

abbrev quota : Failure
quota = record {
  canceled = false;
  deadline_exceeded = false;
  provider_error = some (record { provider = codes "ollama"; status_code = 429; body = [] });
  url_error = false;
  text = codes "HTTP 429";
}

abbrev chain : FallbackLlm Text Text ℕ
chain = record {
  entries =
      (record {
        name = codes "ollama";
        provider = codes "ollama";
        llm = some (λ req w. (w + 1, err quota));
        model = codes "a";
        config_id = [];
      })
      ∷ (record {
        name = codes "openai";
        provider = codes "openai";
        llm = some (λ req w. (w + 1, ok req.model));
        model = codes "b";
        config_id = [];
      })
      ∷ [];
  active = 0;
}

generate_lem_example :
    Walk
      (record { model = []; rest = codes "hi" })
      (drop 0 chain.entries)
      0
      []
      0
      (generate chain (record { model = []; rest = codes "hi" }) 0)
generate_lem_example = generate_lem chain (record { model = []; rest = codes "hi" }) 0

abbrev digest : ℕ → Text
digest zero = []
digest (suc n) = 97 ∷ digest n

abbrev saved_entry : Text → Text → ProviderStateEntry
saved_entry provider model = record { provider = provider; model = model; config_id = digest 64 }

abbrev second : FallbackLlm Text Text ℕ
second = record {
  entries =
      (record {
        name = codes "ollama";
        provider = codes "ollama";
        llm = some (λ req w. (w + 1, err quota));
        model = codes "a";
        config_id = digest 64;
      })
      ∷ (record {
        name = codes "openai";
        provider = codes "openai";
        llm = some (λ req w. (w + 1, ok req.model));
        model = codes "b";
        config_id = digest 64;
      })
      ∷ [];
  active = 1;
}

abbrev saved : ProviderState
saved = record {
  version = 1;
  entries =
      saved_entry (codes "ollama") (codes "a") ∷ saved_entry (codes "openai") (codes "b") ∷ [];
  active = 1;
}

saved_accepted : provider_state (λ s. s) (λ s. s) second ≡ ok saved
unfolding provider_state ◌==◌ contains
saved_accepted = refl

new_from_state-provider_state_example :
    new_from_state (λ s. s) (λ s. s) second.entries saved
    ≡ (if leb (length second.entries) 1 then err (out_of_range 1) else ok second)
new_from_state-provider_state_example =
    new_from_state-provider_state (λ s. s) (λ s. s) second saved saved_accepted
