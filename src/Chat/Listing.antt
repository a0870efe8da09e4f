-- ===== src/Chat/Listing.antt =====
-- The lists of list_conversations.go.
use go_agent_api.Base.{
  ℕ, suc, String, Bool, true, refl, sym, take, length-take, ◌⊎◌, ◌<◌, ◌&&◌, ==_iff, List, [], ◌∷◌,
  map, select, length, All, All-take, length-take-le, ◌≡◌, ◌≤◌, ap, ◌∙◌, arith, Bool-cases, inl,
  inr,
}
use mathlib.Core.Path.{subst}
use go_agent_api.Base.Exec.{ok}
use go_agent_api.Base.Binds.{bind_ok, wrap_ok, pure_ok}
use go_agent_api.Entity.Conversation.{Conversation}
use go_agent_api.Store.World.{World, ConversationRow}
use go_agent_api.Store.Conversations
use go_agent_api.Store.Conversations.{ConversationFilter, is_owned}
use go_agent_api.Store.Writes.{run-gets_ok}
use go_agent_api.Chat.Queries.{ListConversationsOutput, list_conversations}

-- A conversation that may stand in the list of a user.
abbrev pub IsShown : ℕ → Conversation → Type 0
IsShown user_id c = c.user_id ≡ user_id

select-IsShown :
    (user_id : ℕ) (test : ConversationRow → Bool) (rows : List ConversationRow)
    → All (IsShown user_id) (map (λ r. r.conv) (select (λ r. is_owned user_id r && test r) rows))
select-IsShown user_id test [] = tt
select-IsShown user_id test (r ∷ rows) = elim (Bool-cases (is_owned user_id r && test r)) [
  | inl p ↦
      rw p (ground (arith, p, ==_iff r.conv.user_id user_id), select-IsShown user_id test rows)
  | inr p ↦ rw p (select-IsShown user_id test rows)
]

select-true :
    (user_id : ℕ) (rows : List ConversationRow)
    → select (λ r. is_owned user_id r && true) rows ≡ select (is_owned user_id) rows
select-true user_id [] = refl
select-true user_id (r ∷ rows) = ground (arith, select-true user_id rows)

length-map :
    (f : ConversationRow → Conversation) (rows : List ConversationRow)
    → length (map f rows) ≡ length rows
length-map f [] = refl
length-map f (r ∷ rows) = ap suc (length-map f rows)

-- the number of the user's conversations that are not deleted
abbrev pub owned : ℕ → World → ℕ
owned user_id w = length (select (is_owned user_id) w.conversations)

listed_ok :
    (ordered : String → String → List Conversation → List Conversation) (user_id : ℕ)
    (filter : ConversationFilter) (w : World) {cs : List Conversation} {v : World}
    → Conversations.find_by_user_id ordered user_id filter w ≡ (ok cs, v)
    → (Conversations.page ordered user_id filter w ≡ cs) × (v.conversations ≡ w.conversations)
unfolding Conversations.find_by_user_id
listed_ok ordered user_id filter w p =
    let (ys, page, same) = run-gets_ok (Conversations.page ordered user_id filter) _ w p in
    (page, ap (λ (x : World). x.conversations) same)

counted_ok :
    (user_id : ℕ) (w : World) {n : ℕ} {v : World}
    → Conversations.count_by_user_id user_id w ≡ (ok n, v)
    → owned user_id w ≡ n
unfolding Conversations.count_by_user_id
counted_ok user_id w p = (run-gets_ok (owned user_id) _ w p).1

-- A list of conversations that is returned holds at most 50, all of them the user's own, beside the
-- number of all that the user has; it holds that many, or it holds 50 and the user has more. The
-- database's ordering is supposed to keep the number of rows, and rows of the user only.
pub list_conversations_ok :
    (ordered : String → String → List Conversation → List Conversation) (user_id : ℕ) (w v : World)
    (o : ListConversationsOutput)
    → ((column direction : String) (cs : List Conversation)
        → All (IsShown user_id) cs
        → All (IsShown user_id) (ordered column direction cs))
    → ((column direction : String) (cs : List Conversation)
        → length (ordered column direction cs) ≡ length cs)
    → list_conversations ordered user_id w ≡ (ok o, v)
    → (length o.conversations ≤ 50)
      × All (IsShown user_id) o.conversations
      × (o.total ≡ owned user_id w)
      × ((length o.conversations ≡ o.total) ⊎ ((length o.conversations ≡ 50) × (50 < o.total)))
unfolding list_conversations
list_conversations_ok ordered user_id w v o keeps measures p =
    let (cs, w1, p1, q1) = bind_ok _ _ w p in
    let (page, rows_kept) = listed_ok ordered user_id _ w (wrap_ok _ _ w p1) in
    let (total, w2, p2, q2) = bind_ok _ _ w1 q1 in
    let (e, _) = pure_ok _ w2 q2 in
    let same = page ∙ ap (λ (x : ListConversationsOutput). x.conversations) e in
    let rows =
      map (λ (r : ConversationRow). r.conv)
        (select (λ r. is_owned user_id r && true) w.conversations) in
    let list = ordered "updated_at" "DESC" rows in
    let counted : o.total ≡ owned user_id w =
      ap (λ (x : ListConversationsOutput). x.total) (sym e)
      ∙ (sym (counted_ok user_id w1 (wrap_ok _ _ w1 p2))
          ∙ ap (λ (l : List ConversationRow). length (select (is_owned user_id) l)) rows_kept) in
    let size : length list ≡ o.total =
      measures "updated_at" "DESC" rows
      ∙ (length-map (λ r. r.conv) (select (λ r. is_owned user_id r && true) w.conversations)
          ∙ (ap (λ (l : List ConversationRow). length l) (select-true user_id w.conversations)
              ∙ sym counted)) in
    subst
      (λ l.
        (length l ≤ 50)
        × All (IsShown user_id) l
        × (o.total ≡ owned user_id w)
        × ((length l ≡ o.total) ⊎ ((length l ≡ 50) × (50 < o.total))))
      same
      (
        length-take-le 50 list,
        All-take (IsShown user_id) 50 list
            (keeps "updated_at" "DESC" rows (select-IsShown user_id (λ r. true) w.conversations)),
        counted,
        subst (λ n. (length (take 50 list) ≡ n) ⊎ ((length (take 50 list) ≡ 50) × (50 < n))) size
            (length-take 50 list),
      )
