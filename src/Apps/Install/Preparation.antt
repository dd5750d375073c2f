-- ===== src/Apps/Install/Preparation.antt =====
-- What Install has done by the time an app is started.
use nass.Common.{◌⊎◌, ℕ, ◌≡◌, Bool, Option, Text}
use nass.Db.{Db}
use nass.Host.{Host, Trouble, done, fails}
use nass.Host.Meets.{SameHost}
use nass.Users.{Bcrypt}
use nass.Apps.{Spec, InstallContext}
use nass.Apps.Install.{Installed, launch, installed}
use nass.Apps.Install.Resolving.{IsResolved}
use nass.Apps.Install.Provisioning.{HasClient}
use nass.Apps.Install.Writing.{NoCommand, IsWritten}

module _ (url_hostname : Text → Option Text) (bcrypt : Bcrypt)
    (render : Text → InstallContext → Option Text) (is_done port_available : ℕ → Bool)
    (spec : Spec) where
  -- What is in place when the first hook starts.
  abbrev pub IsPrepared : InstallContext → Host → InstallContext → Host → Type 0
  IsPrepared given h ic h' =
      (resolved : InstallContext) × IsResolved url_hostname bcrypt render is_done port_available
        spec given resolved
      × (middle : Host) × SameHost h middle
      × HasClient url_hostname bcrypt render is_done port_available spec h.world.now h.world.db
          resolved ic middle.world.db
      × IsWritten url_hostname bcrypt render is_done port_available spec ic middle h'

  -- The app is started on what is in place.
  abbrev pub IsInstalled : InstallContext → Host → Installed → Host → Type 0
  IsInstalled given h result h' =
      (ic : InstallContext) × (ready : Host) × IsPrepared given h ic ready
      × (launch url_hostname bcrypt render is_done port_available spec ic ready ≡ (done tt, h'))
      × (result ≡ installed ic)

  -- Either no command was run: then at most a client was made; or the start has failed.
  abbrev pub IsStopped : InstallContext → Host → Trouble → Host → Type 0
  IsStopped given h t h' =
      ((resolved ic : InstallContext) × (middle : Host) × SameHost h middle
        × ((middle.world.db ≡ h.world.db)
            ⊎ HasClient url_hostname bcrypt render is_done port_available spec h.world.now
                h.world.db resolved ic middle.world.db)
        × NoCommand middle h')
      ⊎ ((ic : InstallContext) × (ready : Host) × IsPrepared given h ic ready
          × (launch url_hostname bcrypt render is_done port_available spec ic ready
              ≡ (fails t, h')))
