-- ===== src/Routers/Models.antt =====
-- src/llm_gateway/routers/models.py: the models and who owns them, once the request is let through.
pub mod Owners
use myown_llm_gateway.Base.{
  ℕ, String, Bool, true, false, ◌&&◌, ◌||◌, Option, none, some, List, [], ◌∷◌, ◌++◌, ltb, ◌==◌,
  null, if◌then◌else◌, is_none, or_default,
}
use myown_llm_gateway.Base.Dict.{Dict, contains, lookup}
use myown_llm_gateway.Base.Sort.{sort_by}
use myown_llm_gateway.Base.Text.{Text, codes}
use myown_llm_gateway.Providers.Base.{BaseProvider}
use myown_llm_gateway.Providers.Factory.Registry.{all_providers}
use myown_llm_gateway.Routers.Http.{Http, reply, refuse, model_not_found}
use myown_llm_gateway.Routers.Chat.Guards.{error_response}

-- `owned.setdefault(model, owner)`
abbrev pub set_default : String → String → Dict String → Dict String
set_default model owner owned =
    if is_none (lookup model owned) then owned ++ (model, owner) ∷ [] else owned

-- `s <= t`, by code points
unfoldable pub text_le : Text → Text → Bool
text_le [] t = true
text_le (c ∷ s) [] = false
text_le (c ∷ s) (d ∷ t) = ltb c d || (c == d && text_le s t)

-- `sorted(owned.items())`; the keys are distinct, so the owners are not compared.
unfoldable pub insert_item : String × String → Dict String → Dict String
insert_item e [] = e ∷ []
insert_item e (f ∷ rest) =
    let inserted = insert_item e rest in
    if text_le (codes e.0) (codes f.0) then e ∷ f ∷ rest else f ∷ inserted

unfoldable pub sorted_items : Dict String → Dict String
unfolding insert_item
sorted_items [] = []
sorted_items (e ∷ rest) = insert_item e (sorted_items rest)

-- The inner loop of `list_models`.
unfoldable pub own_models : String → List String → Dict String → Dict String
own_models owner [] owned = owned
own_models owner (model ∷ models) owned = own_models owner models (set_default model owner owned)

-- The end of `get_model`: the owner of the model, or a 404.
unfoldable pub owner_or_404 : String → Option String × Option String → Http String
owner_or_404 model_id (some owner, wildcard_owner) = reply owner
owner_or_404 model_id (none, some wildcard_owner) = reply wildcard_owner
owner_or_404 model_id (none, none) =
    refuse (error_response 404 (model_not_found model_id) "model_not_found" [])

module _ {W : Type 0} where
  -- `_providers_by_priority`
  unfoldable pub providers_by_priority : Dict (BaseProvider W) → List (BaseProvider W)
  providers_by_priority registry = sort_by (λ p. p.config.priority) (all_providers registry)

  -- The outer loop.
  unfoldable pub own_all : List (BaseProvider W) → Dict String → Dict String
  unfolding own_models
  own_all [] owned = owned
  own_all (p ∷ ps) owned = own_all ps (own_models p.config.name p.config.supported_models owned)

  -- The ids and the owners of the answer's `data`.
  unfoldable pub list_models : Dict (BaseProvider W) → Dict String
  unfolding providers_by_priority own_all sorted_items
  list_models registry = sorted_items (own_all (providers_by_priority registry) [])

  -- The loop of `get_model`: the owner, and that among the wildcards.
  unfoldable pub find_owner :
      String → List (BaseProvider W) → Option String → Option String × Option String
  find_owner model_id [] wildcard_owner = (none, wildcard_owner)
  find_owner model_id (p ∷ ps) wildcard_owner =
      let after_wildcard =
        find_owner model_id ps (some (or_default wildcard_owner p.config.name)) in
      let after_other = find_owner model_id ps wildcard_owner in
      if null p.config.supported_models
      then after_wildcard
      else if contains model_id p.config.supported_models
      then (some p.config.name, wildcard_owner)
      else after_other

  unfoldable pub get_model : Dict (BaseProvider W) → String → Http String
  unfolding find_owner owner_or_404 providers_by_priority
  get_model registry model_id =
      owner_or_404 model_id (find_owner model_id (providers_by_priority registry) none)
