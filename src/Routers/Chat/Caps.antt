-- ===== src/Routers/Chat/Caps.antt =====
-- src/llm_gateway/routers/chat.py: `enforce_spend_cap` as rows are written.
use myown_llm_gateway.Base.{
  ℕ, Bool, true, false, Option, none, some, leb, ◌≡◌, refl, ◌||◌, inl, inr, Bool-cases,
}
use myown_llm_gateway.Storage.Orm.{Database}
use myown_llm_gateway.Storage.Repositories.{get_key_by_id, get_key_spend_usd, get_global_spend_usd}
use myown_llm_gateway.Routers.Http.{Http, reply, refuse, crash, HttpException}
use myown_llm_gateway.Routers.Chat.Guards.{
  key_limit, over_key_limit, over_global_limit, check_caps, enforce_spend_cap,
}

-- The request gets a 429.
abbrev pub IsRefused : {A : Type 0} → Http A → Type 0
IsRefused (reply a) = ⊥
IsRefused (refuse e) = e.status_code ≡ 429
IsRefused (crash e) = ⊥

-- The limit is set, and the spending has reached it.
abbrev pub is_reached : Option ℕ → ℕ → Bool
is_reached none spent = false
is_reached (some limit) spent = leb limit spent

-- A check raises a 429 exactly when its limit is reached.
abbrev Checks : Bool → Option HttpException → Type 0
Checks true (some e) = e.status_code ≡ 429
Checks true none = ⊥
Checks false (some e) = ⊥
Checks false none = Unit

over_key_limit-Checks :
    (limit : Option ℕ) (spent : ℕ) → Checks (is_reached limit spent) (over_key_limit limit spent)
unfolding over_key_limit
over_key_limit-Checks none spent = tt
over_key_limit-Checks (some limit) spent = elim (Bool-cases (leb limit spent)) [
  | inl reached ↦ rw reached refl
  | inr below ↦ rw below tt
]

over_global_limit-Checks :
    (limit : Option ℕ) (spent : ℕ) → Checks (is_reached limit spent) (over_global_limit limit spent)
unfolding over_global_limit
over_global_limit-Checks none spent = tt
over_global_limit-Checks (some limit) spent = elim (Bool-cases (leb limit spent)) [
  | inl reached ↦ rw reached refl
  | inr below ↦ rw below tt
]

-- The guard refuses if either is reached, and otherwise replies.
abbrev pub Decides : Bool → Http ℕ → ℕ → Type 0
Decides true outcome key = IsRefused outcome
Decides false outcome key = outcome ≡ reply key

check_caps-Decides :
    (a b : Bool) (over_key over_global : Option HttpException) (key : ℕ)
    → Checks a over_key
    → Checks b over_global
    → Decides (a || b) (check_caps over_key over_global key) key
unfolding check_caps
check_caps-Decides true b (some e) over_global key h k = h
check_caps-Decides true b none over_global key h k = absurd h
check_caps-Decides false b (some e) over_global key h k = absurd h
check_caps-Decides false true none (some e) key h k = k
check_caps-Decides false true none none key h k = absurd k
check_caps-Decides false false none (some e) key h k = absurd k
check_caps-Decides false false none none key h k = refl

-- Has the spending reached the key's limit, or the global one?
unfoldable pub is_capped : Option ℕ → ℕ → Database → Bool
is_capped global_limit key db =
    is_reached (key_limit (get_key_by_id key db)) (get_key_spend_usd key db)
    || is_reached global_limit (get_global_spend_usd db)

-- `enforce_spend_cap` refuses with a 429 if the key's limit or the global one is set and reached
-- by the spending, and otherwise lets the request through.
pub enforce_spend_cap-Decides :
    (global_limit : Option ℕ) (key : ℕ) (db : Database)
    → Decides (is_capped global_limit key db) (enforce_spend_cap global_limit key db) key
unfolding enforce_spend_cap is_capped
enforce_spend_cap-Decides global_limit key db =
    check_caps-Decides _ _ _ _ key
      (over_key_limit-Checks (key_limit (get_key_by_id key db)) (get_key_spend_usd key db))
      (over_global_limit-Checks global_limit (get_global_spend_usd db))
