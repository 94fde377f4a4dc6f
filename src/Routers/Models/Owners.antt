-- ===== src/Routers/Models/Owners.antt =====
-- src/llm_gateway/routers/models.py, beside the router and the guard of streaming requests.
use myown_llm_gateway.Base.{
  ℕ, String, Bool, true, false, not, ◌||◌, Option, none, some, List, [], ◌∷◌, null, if◌then◌else◌,
  is_none, or_default, any, filter, ◌≡◌, refl, arith, ◌∙◌, ap, eq_iff, str_eq, sym, ==_iff,
}
use myown_llm_gateway.Base.Dict.{Dict, contains, lookup}
use myown_llm_gateway.Base.Sort.{insert_by, sort_by}
use myown_llm_gateway.Base.Text.{Text, codes}
use myown_llm_gateway.Models.Api.{ChatRequest}
use myown_llm_gateway.Providers.Base.{BaseProvider}
use myown_llm_gateway.Providers.Factory.Registry.{all_providers}
use myown_llm_gateway.Services.Router.{serves, select_providers}
use myown_llm_gateway.Services.Usage.{Effects}
use myown_llm_gateway.Routers.Http.{Http, reply, refuse, crash}
use myown_llm_gateway.Routers.Chat.Guards.{reject_unknown_streaming_model}
use myown_llm_gateway.Routers.Models.{
  set_default, text_le, insert_item, sorted_items, own_models, providers_by_priority, own_all,
  list_models, find_owner, owner_or_404, get_model,
}

-- The first of two.
abbrev or_else : Option String → Option String → Option String
or_else none o = o
or_else (some s) o = some s

text_le_refl : (s : Text) → text_le s s ≡ true
unfolding text_le
text_le_refl [] = refl
text_le_refl (c ∷ s) = ground (arith, text_le_refl s, ==_iff c c)

lookup-insert_item :
    (m : String) (e : String × String) (d : Dict String)
    → lookup m (insert_item e d) ≡ (if str_eq m e.0 then some e.1 else lookup m d)
unfolding insert_item
lookup-insert_item m e [] = refl
lookup-insert_item m e (f ∷ rest) =
    ground
      (arith, lookup-insert_item m e rest, text_le_refl (codes e.0), eq_iff m e.0, eq_iff m f.0)

lookup-sorted_items : (m : String) (d : Dict String) → lookup m (sorted_items d) ≡ lookup m d
unfolding sorted_items
lookup-sorted_items m [] = refl
lookup-sorted_items m (e ∷ rest) =
    ground (arith, lookup-insert_item m e (sorted_items rest), lookup-sorted_items m rest)

lookup-set_default :
    (m model owner : String) (d : Dict String)
    → lookup m (set_default model owner d)
      ≡ or_else (lookup m d) (if str_eq m model then some owner else none)
lookup-set_default m model owner [] = ground arith
lookup-set_default m model owner (f ∷ rest) =
    ground
      (arith, lookup-set_default m model owner rest, eq_iff m model, eq_iff m f.0, eq_iff model f.0)

lookup-own_models :
    (m owner : String) (models : List String) (d : Dict String)
    → lookup m (own_models owner models d)
      ≡ or_else (lookup m d) (if contains m models then some owner else none)
unfolding own_models
lookup-own_models m owner [] d = ground arith
lookup-own_models m owner (model ∷ models) d = ground (
  arith,
  lookup-own_models m owner models (set_default model owner d),
  lookup-set_default m model owner d,
)

abbrev has_owner : Option String × Option String → Bool
has_owner owners = not (is_none owners.0) || not (is_none owners.1)

module _ {W : Type 0} where
  -- The name of the first provider that lists the model.
  abbrev first_lister : String → List (BaseProvider W) → Option String
  first_lister m [] = none
  first_lister m (p ∷ ps) =
      if contains m p.config.supported_models then some p.config.name else first_lister m ps

  lookup-own_all :
      (m : String) (ps : List (BaseProvider W)) (d : Dict String)
      → lookup m (own_all ps d) ≡ or_else (lookup m d) (first_lister m ps)
  unfolding own_all
  lookup-own_all m [] d = ground arith
  lookup-own_all m (p ∷ ps) d = ground (
    arith,
    lookup-own_all m ps (own_models p.config.name p.config.supported_models d),
    lookup-own_models m p.config.name p.config.supported_models d,
  )

  find_owner-first_lister :
      (m : String) (ps : List (BaseProvider W)) (wildcard : Option String)
      → (find_owner m ps wildcard).0 ≡ first_lister m ps
  unfolding find_owner
  find_owner-first_lister m [] wildcard = refl
  find_owner-first_lister m (p ∷ ps) wildcard = ground (
    arith,
    find_owner-first_lister m ps wildcard,
    find_owner-first_lister m ps (some (or_default wildcard p.config.name)),
  )

  any-insert_by :
      (p : BaseProvider W → Bool) (x : BaseProvider W) (xs : List (BaseProvider W))
      → any p (insert_by (λ p. p.config.priority) x xs) ≡ (p x || any p xs)
  unfolding insert_by
  any-insert_by p x [] = refl
  any-insert_by p x (y ∷ ys) = ground (arith, any-insert_by p x ys)

  any-sort_by :
      (p : BaseProvider W → Bool) (xs : List (BaseProvider W))
      → any p (sort_by (λ p. p.config.priority) xs) ≡ any p xs
  unfolding sort_by
  any-sort_by p [] = refl
  any-sort_by p (x ∷ xs) =
      any-insert_by p x (sort_by (λ p. p.config.priority) xs)
      ∙ ap (λ b. p x || b) (any-sort_by p xs)

  null-insert_by :
      (x : BaseProvider W) (xs : List (BaseProvider W))
      → null (insert_by (λ p. p.config.priority) x xs) ≡ false
  unfolding insert_by
  null-insert_by x [] = refl
  null-insert_by x (y ∷ ys) = ground arith

  null-sorted_filter :
      (p : BaseProvider W → Bool) (xs : List (BaseProvider W))
      → not (null (sort_by (λ p. p.config.priority) (filter p xs))) ≡ any p xs
  unfolding sort_by
  null-sorted_filter p [] = refl
  null-sorted_filter p (x ∷ xs) = ground (
    arith,
    null-sorted_filter p xs,
    null-insert_by x (sort_by (λ p. p.config.priority) (filter p xs)),
  )

  has_owner-find_owner :
      (m : String) (ps : List (BaseProvider W)) (wildcard : Option String)
      → has_owner (find_owner m ps wildcard) ≡ (any (serves m) ps || not (is_none wildcard))
  unfolding find_owner
  has_owner-find_owner m [] wildcard = refl
  has_owner-find_owner m (p ∷ ps) wildcard = ground (
    arith,
    has_owner-find_owner m ps wildcard,
    has_owner-find_owner m ps (some (or_default wildcard p.config.name)),
  )

-- A 200.
abbrev pub is_reply : {A : Type 0} → Http A → Bool
is_reply (reply a) = true
is_reply (refuse e) = false
is_reply (crash e) = false

is_reply-owner_or_404 :
    (m : String) (o w : Option String)
    → is_reply (owner_or_404 m (o, w)) ≡ (not (is_none o) || not (is_none w))
unfolding owner_or_404
is_reply-owner_or_404 m (some o) w = refl
is_reply-owner_or_404 m none (some w) = refl
is_reply-owner_or_404 m none none = refl

owner_or_404-some :
    (m owner : String) (o w : Option String) → o ≡ some owner → owner_or_404 m (o, w) ≡ reply owner
unfolding owner_or_404
owner_or_404-some m owner (some o) w e = ground arith
owner_or_404-some m owner none w e = absurd (ground arith)

-- A model is known to `GET /v1/models/{id}`, to the guard of streaming requests, and to the
-- gateway, which finds candidates for it, in the same cases: if a provider serves it, by name or
-- as a wildcard. And the owner that the list of models gives is the one that the model's page has.
pub get_model_agrees :
    {W : Type 0} (registry : Dict (BaseProvider W)) (body : ChatRequest) (key latency : ℕ)
    (e : Effects)
    → let known = any (serves body.model) (all_providers registry) in
      (is_reply (get_model registry body.model) ≡ known)
      × (is_none (reject_unknown_streaming_model body registry key latency e).0 ≡ known)
      × (not (null (select_providers registry body.model)) ≡ known)
      × ((owner : String)
          → lookup body.model (list_models registry) ≡ some owner
          → get_model registry body.model ≡ reply owner)
unfolding get_model list_models providers_by_priority reject_unknown_streaming_model
    select_providers
get_model_agrees {W} registry body key latency e = (
  is_reply-owner_or_404 m _ _
      ∙ has_owner-find_owner m ps none
      ∙ or_false (any (serves m) ps)
      ∙ any-sort_by (serves m) (all_providers registry),
  ground arith,
  null-sorted_filter (serves m) (all_providers registry),
  λ owner listed. owner_or_404-some m owner _ _ (
      find_owner-first_lister m ps none
      ∙ sym (lookup-own_all m ps [])
      ∙ sym (lookup-sorted_items m (own_all ps []))
      ∙ listed),
)
  where
    m : String
    m = body.model

    ps : List (BaseProvider W)
    ps = sort_by (λ p. p.config.priority) (all_providers registry)

    or_false : (b : Bool) → (b || false) ≡ b
    or_false b = ground arith
