-- ===== src/Services/Prometheus/Labels.antt =====
-- src/llm_gateway/services/prometheus_metrics.py: runs of the module's events, and the model labels.
use myown_llm_gateway.Base.{
  ap, ◌∙◌, ℕ, ◌≤◌, String, Bool, true, false, ◌||◌, List, [], ◌∷◌, length, All, All-map, str_eq,
  ◌≡◌, refl, ◌⊎◌, inl, inr, arith, Bool-cases,
}
use myown_llm_gateway.Base.Dict.{contains}
use myown_llm_gateway.Models.Usage.{UsageRecord}
use myown_llm_gateway.Services.Prometheus.{
  Labels, same_labels, Counter, inc, Metrics, safe, max_tracked_models, remember_model, model_label,
  record_usage, record_failure, record_cache_event,
}

-- What the module is told.
pub data Event : Type 0 where
  usage : UsageRecord → Event
  failure : String → String → String → Event
  cache_event : String → Event

abbrev pub observe : Event → Metrics → Metrics
observe (usage r) = record_usage r
observe (failure p m e) = record_failure p m e
observe (cache_event r) = record_cache_event r

abbrev pub observe_all : List Event → Metrics → Metrics
observe_all [] m = m
observe_all (e ∷ es) m = observe_all es (observe e m)

-- A series of successes, or one whose model was served before or is "unknown".
abbrev IsKnown : List String → Labels → Type 0
IsKnown served [] = ⊥
IsKnown served (provider ∷ []) = ⊥
IsKnown served (provider ∷ model ∷ []) = ⊥
IsKnown served (provider ∷ model ∷ status ∷ rest) =
    (status ≡ "ok") ⊎ (contains model ("unknown" ∷ served) ≡ true)

pub record IsBounded (m : Metrics) : Type 0 where
  pub known : All (λ e. IsKnown m.served_models e.0) m.requests
  pub few : length m.served_models ≤ max_tracked_models

All-inc :
    (P : Labels → Type 0) (labels : Labels) (n : ℕ) (es : Counter)
    → P labels
    → All (λ e. P e.0) es
    → All (λ e. P e.0) (inc labels n es)
unfolding inc
All-inc P labels n [] h hs = (h, tt)
All-inc P labels n (e ∷ es) h hs = elim (Bool-cases (same_labels labels e.0)) [
  | inl same ↦ rw same hs
  | inr new ↦ rw new (hs.0, All-inc P labels n es h hs.1)
]

-- More models served keep every series known.
IsKnown-mono :
    (served more : List String)
    → ((x : String) → contains x served ≡ true → contains x more ≡ true)
    → (l : Labels) → IsKnown served l
    → IsKnown more l
IsKnown-mono served more sub (provider ∷ model ∷ status ∷ rest) (inl success) = inl success
IsKnown-mono served more sub (provider ∷ model ∷ status ∷ rest) (inr known) =
    inr (ground (arith, sub model))
IsKnown-mono served more sub [] h = h
IsKnown-mono served more sub (provider ∷ []) h = h
IsKnown-mono served more sub (provider ∷ model ∷ []) h = h

contains-remember_model :
    (model : String) (served : List String) (x : String)
    → contains x served ≡ true
    → contains x (remember_model model served) ≡ true
unfolding remember_model
contains-remember_model model served x h = ground arith

length-remember_model :
    (model : String) (served : List String)
    → length served ≤ max_tracked_models
    → length (remember_model model served) ≤ max_tracked_models
unfolding remember_model
length-remember_model model served h = ground arith

model_label_cases :
    (served : List String) (model : String)
    → (model_label served model ≡ "unknown")
      ⊎ ((model_label served model ≡ model) × (contains model served ≡ true))
unfolding model_label
model_label_cases served model = ground arith

or-true : (b : Bool) → (b || true) ≡ true
or-true true = refl
or-true false = refl

contains-model_label :
    (served : List String) (model : String)
    → contains (model_label served model) ("unknown" ∷ served) ≡ true
contains-model_label served model = elim (model_label_cases served model) [
  | inl unknown ↦ ap (λ l. contains l ("unknown" ∷ served)) unknown
  | inr (same, here) ↦
      ap (λ l. contains l ("unknown" ∷ served)) same
      ∙ ap (λ b. str_eq model "unknown" || b) here
      ∙ or-true (str_eq model "unknown")
]

observe-IsBounded : (e : Event) (m : Metrics) → IsBounded m → IsBounded (observe e m)
observe-IsBounded (usage r) m h =
    unfold record_usage in
    record {
      known =
          All-inc (IsKnown served) (safe r.provider ∷ safe r.model ∷ "ok" ∷ []) 1 m.requests
            (inl refl)
            (All-map _ (λ e. IsKnown served e.0) m.requests
              (λ e k.
                IsKnown-mono m.served_models served
                  (contains-remember_model (safe r.model) m.served_models) e.0 k)
              h.known);
      few = length-remember_model (safe r.model) m.served_models h.few;
    }
  where
    served : List String
    served = remember_model (safe r.model) m.served_models
observe-IsBounded (failure p model kind) m h =
    unfold record_failure in
    record {
      known =
          All-inc (IsKnown m.served_models) _ 1 m.requests
            (inr (contains-model_label m.served_models model)) h.known;
      few = h.few;
    }
observe-IsBounded (cache_event r) m h =
    unfold record_cache_event in record { known = h.known; few = h.few }

-- After any events, the label of a model in a series of failures is "unknown" or one of the models
-- served, and at most 50 models are kept as served.
pub observe_all-IsBounded :
    (es : List Event) (m : Metrics) → IsBounded m → IsBounded (observe_all es m)
observe_all-IsBounded [] m h = h
observe_all-IsBounded (e ∷ es) m h =
    observe_all-IsBounded es (observe e m) (observe-IsBounded e m h)
