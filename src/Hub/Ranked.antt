-- ===== src/Hub/Ranked.antt =====
-- The order in which an agent is offered candidates (src/mutmuas/hub.py: agents).
use mathlib.Core.List.{Perm}
use mathlib.Core.List.Perm
use mutmuas.Prelude.{
  String, ◌≡◌, ◌≢◌, ◌<◌, ◌⊎◌, ◌==◌, eq_iff, Bool, true, false, arith, Option, List, [], ◌∷◌, All,
  inl, inr, Bool-cases, some, none, any, select, All-select,
}
use mutmuas.Hub.Registry.{
  Card, ranks_before, card_before, insert_sorted, sorted_by, has_skill, skilled, chosen_cards,
  agents,
}

-- One is idle, the other not.
abbrev pub IsIdler : Card → Card → Type 0
IsIdler d c = (d.state ≡ "idle") × (c.state ≢ "idle")

abbrev pub AlikeIdle : Card → Card → Type 0
AlikeIdle d c =
    ((d.state ≡ "idle") × (c.state ≡ "idle")) ⊎ ((d.state ≢ "idle") × (c.state ≢ "idle"))

-- A better candidate: online where the other is offline; else, alike in that, idle where the other is not;
-- else, alike in both, with the shorter queue.
abbrev pub IsBetter : Card → Card → Type 0
IsBetter d c =
    ((d.online ≡ true) × (c.online ≡ false))
    ⊎ ((d.online ≡ c.online) × (IsIdler d c ⊎ (AlikeIdle d c × (d.queue < c.queue))))

-- No card is followed by a better one.
abbrev pub AreRanked : List Card → Type 0
AreRanked [] = Unit
AreRanked (c ∷ cs) = All (λ d. ¬ IsBetter d c) cs × AreRanked cs

is_idle : (c : Card) → c.state ≡ "idle" → (c.state == "idle") ≡ true
is_idle c h = (eq_iff c.state "idle").1 h

not_idle : (c : Card) → c.state ≢ "idle" → (c.state == "idle") ≡ false
not_idle c h = ground (arith, eq_iff c.state "idle")

better_rank : (d c : Card) → IsBetter d c → ranks_before d c ≡ true
better_rank d c (inl (up, down)) = ground arith
better_rank d c (inr (same, inl (idle, busy))) =
    let e = is_idle d idle in let f = not_idle c busy in ground arith
better_rank d c (inr (same, inr (inl (i, j), less))) =
    let e = is_idle d i in let f = is_idle c j in ground arith
better_rank d c (inr (same, inr (inr (i, j), less))) =
    let e = not_idle d i in let f = not_idle c j in ground arith

-- No card is followed by one that ranks before it, by the key of the sort.
abbrev AreSorted : List Card → Type 0
AreSorted [] = Unit
AreSorted (c ∷ cs) = All (λ d. ranks_before d c ≡ false) cs × AreSorted cs

before_rank : (a b : Card) → card_before a b ≡ true → ranks_before b a ≡ false
before_rank a b h = ground arith

not_before_rank : (a b : Card) → card_before a b ≡ false → ranks_before a b ≡ false
not_before_rank a b h = ground arith

rank_chain :
    (a b c : Card) → ranks_before c b ≡ false → ranks_before b a ≡ false → ranks_before c a ≡ false
rank_chain a b c h k = ground arith

module _ {ℓ} (P : Card → Type ℓ) (before : Card → Card → Bool) where
  All-insert_sorted :
      (a : Card) (cs : List Card) → P a → All P cs → All P (insert_sorted before a cs)
  All-insert_sorted a [] p h = (p, tt)
  All-insert_sorted a (c ∷ cs) p (q, h) =
      let rest = All-insert_sorted a cs p h in
      elim (Bool-cases (before c a)) [ inl e ↦ rw e (q, rest) | inr e ↦ rw e (p, (q, h)) ]

All-chain :
    (a b : Card) (cs : List Card)
    → ranks_before b a ≡ false
    → All (λ d. ranks_before d b ≡ false) cs
    → All (λ d. ranks_before d a ≡ false) cs
All-chain a b [] h k = tt
All-chain a b (c ∷ cs) h (k, ks) = (rank_chain a b c k h, All-chain a b cs h ks)

insert_sorted-AreSorted :
    (a : Card) (cs : List Card) → AreSorted cs → AreSorted (insert_sorted card_before a cs)
insert_sorted-AreSorted a [] h = (tt, tt)
insert_sorted-AreSorted a (c ∷ cs) (h, hs) =
    let rest = insert_sorted-AreSorted a cs hs in
    elim (Bool-cases (card_before c a)) [
      | inl e ↦ rw e (
        All-insert_sorted (λ d. ranks_before d c ≡ false) card_before a cs (before_rank c a e) h,
        rest,
      )
      | inr e ↦
          let first = not_before_rank c a e in rw e ((first, All-chain a c cs first h), (h, hs))
    ]

sorted_by-AreSorted : (cs : List Card) → AreSorted (sorted_by card_before cs)
sorted_by-AreSorted [] = tt
sorted_by-AreSorted (c ∷ cs) = insert_sorted-AreSorted c _ (sorted_by-AreSorted cs)

insert_sorted-Perm :
    {A : Type 0} (before : A → A → Bool) (a : A) (xs : List A)
    → Perm (insert_sorted before a xs) (a ∷ xs)
insert_sorted-Perm before a [] = Perm.refl (a ∷ [])
insert_sorted-Perm before a (x ∷ xs) =
    let rest = insert_sorted-Perm before a xs in
    elim (Bool-cases (before x a)) [
      | inl e ↦ rw e (Perm.trans (Perm.cons x rest) (Perm.swap a x xs))
      | inr e ↦ rw e (Perm.refl (a ∷ x ∷ xs))
    ]

sorted_by-Perm : {A : Type 0} (before : A → A → Bool) (xs : List A) → Perm (sorted_by before xs) xs
sorted_by-Perm before [] = Perm.refl []
sorted_by-Perm before (x ∷ xs) =
    Perm.trans (insert_sorted-Perm before x (sorted_by before xs))
      (Perm.cons x (sorted_by-Perm before xs))

not-IsBetter :
    (c : Card) (cs : List Card)
    → All (λ d. ranks_before d c ≡ false) cs
    → All (λ d. ¬ IsBetter d c) cs
not-IsBetter c [] h = tt
not-IsBetter c (d ∷ cs) (h, hs) = ((λ b. let r = better_rank d c b in cc), not-IsBetter c cs hs)

AreSorted-AreRanked : (cs : List Card) → AreSorted cs → AreRanked cs
AreSorted-AreRanked [] h = tt
AreSorted-AreRanked (c ∷ cs) (h, hs) = (not-IsBetter c cs h, AreSorted-AreRanked cs hs)

-- A card with the capability or the role that is asked for, if one is.
abbrev pub IsSkilled : (String → String) → Option String → Card → Type 0
IsSkilled lower capability c =
    (s : String)
    → capability ≡ some s
    → s ≢ ""
    → (any (λ x. lower x == lower s) c.capabilities ≡ true) ⊎ (lower s ≡ lower c.role)

abbrev pub IsOnline : Card → Type 0
IsOnline c = c.online ≡ true

select-All :
    (p : Card → Bool) (P : Card → Type 0)
    → ((c : Card) → p c ≡ true → P c)
    → (cs : List Card) → All P (select p cs)
select-All p P h [] = tt
select-All p P h (c ∷ cs) =
    let rest = select-All p P h cs in
    elim (Bool-cases (p c)) [ inl e ↦ rw e (h c e, rest) | inr e ↦ rw e rest ]

every : (P : Card → Type 0) → ((c : Card) → P c) → (cs : List Card) → All P cs
every P h [] = tt
every P h (c ∷ cs) = (h c, every P h cs)

has_skill-IsSkilled :
    (lower : String → String) (s : String) (c : Card)
    → has_skill lower s c ≡ true
    → IsSkilled lower (some s) c
has_skill-IsSkilled lower s c h t e n =
    let same : s ≡ t = cc in
    rw (← same) (elim (Bool-cases (any (λ x. lower x == lower s) c.capabilities)) [
      | inl yes_ ↦ inl yes_
      | inr no_ ↦ inr ((eq_iff (lower s) (lower c.role)).0 (ground arith))
    ])

skilled-IsSkilled :
    (lower : String → String) (capability : Option String) (cards : List Card)
    → All (IsSkilled lower capability) (skilled lower capability cards)
skilled-IsSkilled lower none cards = every _ (λ c s e n. cc) cards
skilled-IsSkilled lower (some s) cards = elim (Bool-cases (s == "")) [
  | inl e ↦ rw e (
      every _ (λ c t k n. let same : s ≡ t = cc in absurd (n (rw same at ((eq_iff s "").0 e))))
        cards)
  | inr e ↦ rw e (select-All (has_skill lower s) _ (has_skill-IsSkilled lower s) cards)
]

chosen_cards-IsSkilled :
    (lower : String → String) (capability : Option String) (online_only : Bool) (cards : List Card)
    → All (IsSkilled lower capability) (chosen_cards lower capability online_only cards)
chosen_cards-IsSkilled lower capability false cards = skilled-IsSkilled lower capability cards
chosen_cards-IsSkilled lower capability true cards =
    All-select _ (λ (c : Card). c.online) _ (skilled-IsSkilled lower capability cards)

chosen_cards-IsOnline :
    (lower : String → String) (capability : Option String) (online_only : Bool) (cards : List Card)
    → online_only ≡ true
    → All IsOnline (chosen_cards lower capability online_only cards)
chosen_cards-IsOnline lower capability false cards h = cc
chosen_cards-IsOnline lower capability true cards h =
    select-All (λ (c : Card). c.online) IsOnline (λ c e. e) (skilled lower capability cards)

sorted_by-All : (P : Card → Type 0) (cs : List Card) → All P cs → All P (sorted_by card_before cs)
sorted_by-All P [] h = tt
sorted_by-All P (c ∷ cs) (h, hs) =
    All-insert_sorted P card_before c (sorted_by card_before cs) h (sorted_by-All P cs hs)

-- The cards that `agents` returns are those that were chosen, each as often: all have the capability or the
-- role that is asked for, and are online if only such are wanted. None is followed by a better one: online
-- before offline, then idle before busy, then the shorter queue.
pub agents_ranked :
    (lower : String → String) (capability : Option String) (online_only : Bool) (cards : List Card)
    → Perm
        (agents lower capability online_only cards)
        (chosen_cards lower capability online_only cards)
      × All (IsSkilled lower capability) (agents lower capability online_only cards)
      × (online_only ≡ true → All IsOnline (agents lower capability online_only cards))
      × AreRanked (agents lower capability online_only cards)
unfolding agents
agents_ranked lower capability online_only cards =
    let found = chosen_cards lower capability online_only cards in
    (
      sorted_by-Perm card_before found,
      sorted_by-All _ found (chosen_cards-IsSkilled lower capability online_only cards),
      (λ h.
          sorted_by-All IsOnline found
            (chosen_cards-IsOnline lower capability online_only cards h)),
      AreSorted-AreRanked _ (sorted_by-AreSorted found),
    )
