-- ===== src/Qsd/Requests/Counters.antt =====
-- The counters of the images in runs of the server.
use csi_qsd.Base.{◌^◌, ◌<◌, ◌≡◌, some, [], length}
use csi_qsd.Go.Text.{Text}
use csi_qsd.Go.Table.{lookup}
use csi_qsd.Host.{Host}
use csi_qsd.Qsd.Graph.Bounds.{depth-lt-length, ref_count-lt-length}
use csi_qsd.Qsd.Server.State.{QcowImage, Sys}
use csi_qsd.Qsd.Requests.{Runs}
use csi_qsd.Qsd.Requests.Safety.{Runs-IsForest}

module _ (H : Host) where
  -- From a server with no image, after any admissible requests and whatever the host answered, the
  -- depth and the reference count of each image are less than the number of images, and that is
  -- less than 2^31: neither counter has wrapped.
  pub Runs_bounds :
      (s t : Sys H) (k : Text) (v : QcowImage)
      → s.server.images ≡ []
      → Runs H s t
      → lookup k t.server.images ≡ some v
      → (v.depth < length t.server.images)
        × (v.ref_count < length t.server.images)
        × (length t.server.images < 2 ^ 31)
  Runs_bounds s t k v e run h =
      let F = Runs-IsForest H s t e run in
      (
        depth-lt-length t.server.images F k v h,
        ref_count-lt-length t.server.images F k v h,
        F.small,
      )
