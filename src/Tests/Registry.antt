-- ===== src/Tests/Registry.antt =====
-- A registry of three agents, two of them with the skill that is asked for.
use mathlib.Core.List.{Perm}
use mutmuas.Prelude.{◌≡◌, refl, true, false, some, List, [], ◌∷◌, All}
use mutmuas.Hub.Registry.{Card, agents, chosen_cards, nodes, all_tasks}
use mutmuas.Hub.Ranked.{IsSkilled, IsOnline, AreRanked, agents_ranked}

abbrev away : Card
away = record {
  address = "A:db";
  online = false;
  state = "idle";
  queue = 0;
  role = "database";
  capabilities = "sql" ∷ [];
}

abbrev at_work : Card
at_work = record away { address = "B:db"; online = true; state = "working"; queue = 2 }

abbrev artist : Card
artist = record away { address = "C:art"; online = true; role = "design"; capabilities = [] }

abbrev cards : List Card
cards = away ∷ artist ∷ at_work ∷ []

online_first : agents (λ s. s) (some "sql") false cards ≡ at_work ∷ away ∷ []
unfolding agents
online_first = refl

by_name : nodes (λ n. n) ("B" ∷ "A" ∷ []) ≡ "A" ∷ "B" ∷ []
unfolding nodes
by_name = refl

newest : all_tasks (λ n. n) 2 ("2026-01" ∷ "2026-03" ∷ "2026-02" ∷ []) ≡ "2026-03" ∷ "2026-02" ∷ []
unfolding all_tasks
newest = refl

agents_ranked_example :
    Perm (agents (λ s. s) (some "sql") false cards) (chosen_cards (λ s. s) (some "sql") false cards)
    × All (IsSkilled (λ s. s) (some "sql")) (agents (λ s. s) (some "sql") false cards)
    × (false ≡ true → All IsOnline (agents (λ s. s) (some "sql") false cards))
    × AreRanked (agents (λ s. s) (some "sql") false cards)
agents_ranked_example = agents_ranked (λ s. s) (some "sql") false cards
