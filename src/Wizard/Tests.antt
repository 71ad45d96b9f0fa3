-- ===== src/Wizard/Tests.antt =====
-- Runs of the wizard.
use beauty_awg.Samples.{platform, at_work, wizard}
use beauty_awg.Store.Serving.{serve}
use beauty_awg.Wizard.{create}
use beauty_awg.Wizard.Creating.{IsOutcome, create-IsOutcome}

create-IsOutcome_example : IsOutcome wizard (create (serve platform) (at_work wizard)).1.local
create-IsOutcome_example = create-IsOutcome (serve platform) (at_work wizard)
