-- ===== src/Tests/Together.antt =====
-- The services together, on the sample installation.
use telegram_cms.Prelude.{negsuc, [], ◌∷◌, List, arith, refl}
use telegram_cms.World.Keyed.{IsKeyed}
use telegram_cms.Services.{Event, arrived, normalizing, drafting, publishing, decision, run}
use telegram_cms.Services.Keyed.{run-IsKeyed}
use telegram_cms.Lifecycle.{Courses}
use telegram_cms.Tests.Samples.{env, world, channel, boss}
use telegram_cms.Tests.Ingesting.{photo, quick}
use telegram_cms.Tests.Office.{late_decision}

abbrev day : List Event
day =
    arrived ((negsuc 1000, channel) ∷ []) (negsuc 1000) quick quick photo
    ∷ arrived ((negsuc 1000, channel) ∷ []) (negsuc 1000) quick quick photo
    ∷ normalizing 6
    ∷ drafting 6
    ∷ publishing 5
    ∷ decision 5 late_decision boss
    ∷ []

world-IsKeyed : IsKeyed world.db
world-IsKeyed = record { keys = refl; made = (omega arith, tt) }

run-IsKeyed_example : IsKeyed (run env day world).db
run-IsKeyed_example = run-IsKeyed env day world world-IsKeyed
