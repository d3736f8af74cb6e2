-- ===== src/Hub/Registry.antt =====
-- The registry of agents and nodes (src/mutmuas/hub.py: agents, nodes, all_tasks). A card has the fields
-- that a daemon publishes; whether it is online is decided when it is read.
use Prim.Native.Nat.{Ordering}
use Prim.Native.String.{compare}
use mutmuas.Prelude.{
  ℕ, String, Bool, true, false, not, ◌&&◌, ◌||◌, Option, none, some, List, [], ◌∷◌, any, select,
  take, ltb, nat_eq, ◌==◌, if◌then◌else◌,
}

pub record Card : Type 0 where
  pub address : String
  pub online : Bool
  pub state : String
  pub queue : ℕ
  pub role : String
  pub capabilities : List String

abbrev pub text_before : String → String → Bool
text_before s t = elim (compare s t) [ Ordering.lt ↦ true | _ ↦ false ]

abbrev as_number : Bool → ℕ
as_number true = 1
as_number false = 0

-- not c["online"], and c.get("state") != "idle"
abbrev pub offline_key : Card → ℕ
offline_key c = as_number (not c.online)

abbrev pub busy_key : Card → ℕ
busy_key c = as_number (not (c.state == "idle"))

abbrev pub same_rank : Card → Card → Bool
same_rank a b =
    nat_eq (offline_key a) (offline_key b)
    && (nat_eq (busy_key a) (busy_key b) && nat_eq a.queue b.queue)

-- The order of the tuples without their last part, the address.
abbrev pub ranks_before : Card → Card → Bool
ranks_before a b =
    ltb (offline_key a) (offline_key b)
    || (nat_eq (offline_key a) (offline_key b)
        && (ltb (busy_key a) (busy_key b)
            || (nat_eq (busy_key a) (busy_key b) && ltb a.queue b.queue)))

abbrev pub card_before : Card → Card → Bool
card_before a b = ranks_before a b || (same_rank a b && text_before a.address b.address)

module _ {A : Type 0} (before : A → A → Bool) where
  -- cards.sort(key=...): equal ones keep their order.
  abbrev pub insert_sorted : A → List A → List A
  insert_sorted a [] = a ∷ []
  insert_sorted a (b ∷ bs) = if before b a then b ∷ insert_sorted a bs else a ∷ b ∷ bs

  abbrev pub sorted_by : List A → List A
  sorted_by [] = []
  sorted_by (a ∷ rest) = insert_sorted a (sorted_by rest)

-- `lower` is `str.lower`.
abbrev pub has_skill : (String → String) → String → Card → Bool
has_skill lower capability c =
    any (λ x. lower x == lower capability) c.capabilities || lower capability == lower c.role

abbrev pub skilled : (String → String) → Option String → List Card → List Card
skilled lower none cards = cards
skilled lower (some capability) cards =
    if capability == "" then cards else select (has_skill lower capability) cards

abbrev pub chosen_cards : (String → String) → Option String → Bool → List Card → List Card
chosen_cards lower capability online_only cards =
    let found = skilled lower capability cards in
    if online_only then select (λ (c : Card). c.online) found else found

-- `Hub.agents`, of the cards that the registry holds.
unfoldable pub agents : (String → String) → Option String → Bool → List Card → List Card
agents lower capability online_only cards =
    sorted_by card_before (chosen_cards lower capability online_only cards)

-- `Hub.nodes`: the cards of the nodes by their names.
unfoldable pub nodes : {A : Type 0} → (A → String) → List A → List A
nodes node_of cards = sorted_by (λ a b. text_before (node_of a) (node_of b)) cards

-- `Hub.all_tasks`: the newest first, in reverse and stable.
unfoldable pub all_tasks : {A : Type 0} → (A → String) → ℕ → List A → List A
all_tasks created_at limit records =
    take limit (sorted_by (λ a b. text_before (created_at b) (created_at a)) records)
