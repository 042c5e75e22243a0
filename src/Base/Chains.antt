-- ===== src/Base/Chains.antt =====
-- Chains of allowed steps, for the tables of transitions of the program.
use mathlib.Core.Path.{◌≡◌}
use mathlib.Core.Bool.{Bool, true}

-- A chain of steps that a Boolean table allows.
pub data Chain {A : Type 0} (can : A → A → Bool) : A → A → Type 0 where
  stop : (s : A) → Chain can s s
  step : {s t u : A} → Chain can s t → can t u ≡ true → Chain can s u

module _ {A : Type 0} {can : A → A → Bool} where
  pub join : {s t u : A} → Chain can s t → Chain can t u → Chain can s u
  join p (stop _) = p
  join p (step q a) = step (join p q) a
