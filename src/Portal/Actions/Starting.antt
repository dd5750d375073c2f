-- ===== src/Portal/Actions/Starting.antt =====
-- The jobs that requests to internal/portal/admin.go start.
use nass.Common.{◌≡◌, true, Option, some, Text, text, text_eq_test, Dict}
use nass.Host.{Host, done}
use nass.Host.Meets.{Meets}
use nass.Apps.{Spec, InstallContext, get}
use nass.Apps.Uninstall.{AppPaths}
use nass.Apps.Uninstall.Paths.{AreFoundPaths}
use nass.Portal.Actions.{
  Portal, AppForm, Handled, answers, starts, is_name, install_context, install_job, uninstall_job,
  uninstall_context,
}
use nass.Portal.Actions.Commands.{IsAuthorized}

module _ (p : Portal) (url_host : Text → Option Text) (cookie : Text) (f : AppForm) (h : Host) where
  -- The installation of a registered app, under a name of letters, digits, `_` and `-`, and a reload.
  abbrev pub IsInstallation : Dict Spec → Handled → Type 0
  IsInstallation reg (answers page) = ⊥
  IsInstallation reg (starts action name job page) =
      IsAuthorized p url_host cookie f h
      × (action ≡ text "install")
      × (name ≡ f.name)
      × (is_name f.name ≡ true)
      × ((spec : Spec) × (ic : InstallContext) × (get f.name reg ≡ some spec)
          × (install_context p spec ≡ done ic)
          × (job ≡ install_job p spec ic))

  -- The removal, with its data, of an app that the table has, and a reload.
  abbrev pub IsRemoval : Handled → Type 0
  IsRemoval (answers page) = ⊥
  IsRemoval (starts action name job page) =
      IsAuthorized p url_host cookie f h
      × (action ≡ text "uninstall")
      × (name ≡ f.name)
      × ((paths : AppPaths) × AreFoundPaths f.name h.world.db (some paths)
          × (job ≡ uninstall_job p (uninstall_context p url_host (some cookie) f paths)))
