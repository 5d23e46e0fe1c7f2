-- ===== src/Publisher/Run/Rebuilding.antt =====
-- A run whose candidate cannot be rebuilt.
use situation_studio.Prelude.{◌≡◌, false, none, String}
use situation_studio.Store.{FailureCode}
use situation_studio.Publisher.Tables.{Studio, Leadership}
use situation_studio.Publisher.Action.{World, Progress}
use situation_studio.Publisher.Steps.{Ending, failed, Claimed}
use situation_studio.Publisher.Run.Quiet.{OthersLawful, Knowledge, Knows}

module _ (world : World) (lawful : OthersLawful world) (code_text : FailureCode → String)
    (s0 : Studio) (l0 : Leadership) (r : Claimed) where
  -- Leadership as it was, and no promotion in sight.
  abbrev pub Unaware : Knowledge
  Unaware l promoted attempted known active =
      (l ≡ l0) × (promoted ≡ false) × (attempted ≡ false) × (active ≡ none)

  abbrev pub Start : Progress → Type 0
  Start p = Knows s0 Unaware p × (p.runtime_verified ≡ false)

  abbrev pub Unmoved : Ending → Progress → Type 0
  Unmoved e q = (e ≡ failed) × (q.leadership ≡ l0)

  abbrev pub Still : Progress → Type 0
  Still q = q.leadership ≡ l0
