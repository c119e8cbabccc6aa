-- ===== src/Qsd/Requests/Safety.antt =====
-- The requests keep the forest of images.
use csi_qsd.Base.{◌≡◌, refl, [], arith, sym}
use mathlib.Core.Path.{subst}
use csi_qsd.Go.Table.{lookup}
use csi_qsd.Host.{Host}
use csi_qsd.Qsd.Message.{Image}
use csi_qsd.Qsd.Graph.Change.{Changes, stay}
use csi_qsd.Qsd.Graph.Invariant.{IsForest}
use csi_qsd.Qsd.Graph.Preserve.{Changes-IsForest}
use csi_qsd.Qsd.Server.State.{Server, Sys}
use csi_qsd.Qsd.Server.Export.{handle_expose_vhost_user, handle_delete_exporter}
use csi_qsd.Qsd.Server.Effect.Creation.{handle_create_volume-Changes}
use csi_qsd.Qsd.Server.Effect.Overlay.{handle_create_snapshot-Changes}
use csi_qsd.Qsd.Server.Effect.Removal.{handle_delete_volume-Changes, handle_delete_snapshot-Changes}
use csi_qsd.Qsd.Requests.{
  Request, create_volume, expose_vhost_user, delete_volume, delete_exporter, create_snapshot,
  delete_snapshot, IsAdmissible, dispatch, Runs, start, serve,
}

module _ (H : Host) where
  -- Exporting and its undoing leave the server as it is, on every branch.
  pub expose-server :
      (image : Image) (s : Sys H) → (handle_expose_vhost_user H image s).1.server ≡ s.server
  unfolding handle_expose_vhost_user
  expose-server image s = ground arith

  pub unexpose-server :
      (image : Image) (s : Sys H) → (handle_delete_exporter H image s).1.server ≡ s.server
  unfolding handle_delete_exporter
  unexpose-server image s = ground arith

  -- Whatever the host answers, the table of images after an admissible request comes from the
  -- table before it by changes that the specification of the forest allows.
  pub dispatch-Changes :
      (r : Request) (s : Sys H)
      → IsAdmissible r s.server
      → Changes s.server.images (dispatch H r s).1.server.images
  unfolding dispatch
  dispatch-Changes (create_volume image) s a =
      handle_create_volume-Changes H image s a.absent a.proper a.room
  dispatch-Changes (expose_vhost_user image) s a =
      subst (λ (t : Server). Changes s.server.images t.images) (sym (expose-server image s)) stay
  dispatch-Changes (delete_volume image) s a = handle_delete_volume-Changes H image s
  dispatch-Changes (delete_exporter image) s a =
      subst (λ (t : Server). Changes s.server.images t.images) (sym (unexpose-server image s)) stay
  dispatch-Changes (create_snapshot snapshot) s a =
      handle_create_snapshot-Changes H snapshot s a.absent a.proper a.room
  dispatch-Changes (delete_snapshot snapshot) s a = handle_delete_snapshot-Changes H snapshot s

  pub dispatch-IsForest :
      (r : Request) (s : Sys H)
      → IsAdmissible r s.server
      → IsForest s.server.images
      → IsForest (dispatch H r s).1.server.images
  dispatch-IsForest r s a F = Changes-IsForest F (dispatch-Changes r s a)

  pub empty-IsForest : IsForest []
  unfolding lookup
  empty-IsForest = record {
    distinct = tt;
    named = refl;
    layered = λ k v h. absurd (ground arith);
    counted = λ k v h. absurd (ground arith);
    owned = λ k v h. absurd (ground arith);
    small = omega arith;
  }

  pub run-IsForest :
      {s t : Sys H} → IsForest s.server.images → Runs H s t → IsForest t.server.images
  run-IsForest F start = F
  run-IsForest F (serve r {t} run a) = dispatch-IsForest r t a (run-IsForest F run)

  -- From a server with no image, after any admissible requests and whatever the host answered to
  -- any call, the images are a forest: no backing image is missing, each depth is one more than
  -- that of the backing image, and each reference count is the number of images on top.
  pub Runs-IsForest : (s t : Sys H) → s.server.images ≡ [] → Runs H s t → IsForest t.server.images
  Runs-IsForest s t e run = run-IsForest (subst IsForest (sym e) empty-IsForest) run
