-- ===== src/Matching/Ask/PostOnly.antt =====
-- A round of `new_ask` (dex/src/matching.rs) that may only post.
use openbook_dex.Prelude.{
  ℕ, ◌≡◌, refl, Bool, true, not, ◌||◌, ◌&&◌, none, some, ltb, leb, arith, if◌then◌else◌,
}
use openbook_dex.Types.{bid}
use openbook_dex.Critbit.Node.{LeafNode, leaf_price}
use openbook_dex.Matching.State.{Context, returned, broke, find_bbo, leaf_at}
use openbook_dex.Matching.Post.{Post, returns, Post->>=, Post-if, Post-eq, IsDone, IsDrained}
use openbook_dex.Matching.Ask.{
  NewAskParams, Filled, new_ask, against, round, settle, finish, post, release,
}

against-IsDone :
    (p : NewAskParams) (c : Context) (h : ℕ) (l : LeafNode)
    → p.post_only ≡ true
    → Post IsDone (against p c h l)
unfolding against
against-IsDone p c h l e = Post->>= (Post-eq (leaf_price l)) λ price _.
    Post-if (not (leb p.limit_price price) || p.post_only) (λ _. returns refl)
      (λ f. absurd (ground arith))

round-IsDone : (p : NewAskParams) (c : Context) → p.post_only ≡ true → Post IsDone (round p c)
unfolding round
round-IsDone p c e = Post->>= (Post-eq (find_bbo c bid)) (elim [
  | none ↦ λ _. returns refl
  | some h ↦ λ _. Post->>= (Post-eq (leaf_at c bid h)) λ l _. against-IsDone p c h l e
])

finish-IsDrained :
    (p : NewAskParams) (crossed : Bool) (f : Filled) (c : Context)
    → Post IsDrained (finish p true crossed f c)
unfolding finish
finish-IsDrained p crossed f c = Post->>= (Post-eq (settle p f c)) λ c₁ _.
    Post->>=
      (Post-eq (
        if p.post_allowed && (not crossed && ltb 0 f.unfilled_qty)
        then post p f.unfilled_qty c₁
        else release p f.unfilled_qty c₁))
      λ d _. returns refl

-- A round that may only post leaves nothing of the order.
pub new_ask-IsDrained :
    (p : NewAskParams) (c : Context) → p.post_only ≡ true → Post IsDrained (new_ask p c)
unfolding new_ask
new_ask-IsDrained p c e = Post->>= (round-IsDone p c e) (elim [
  | returned o d ↦ λ f. absurd (cc)
  | broke done crossed b d ↦ λ f. rw f (finish-IsDrained p crossed b d)
])
