-- ===== src/Qsd/Daemon/Runs.antt =====
-- Runs of plainly named requests against the nodes of the storage daemon.
use csi_qsd.Base.{◌≡◌, ◌≢◌, ◌∙◌, sym, ap, true, ◌&&◌, ◌+◌, ◌<◌, ◌^◌, some, none, [], arith, length}
use mathlib.Core.Path.{subst}
use csi_qsd.Go.Text.{Text, text}
use csi_qsd.Go.Plain.{is_plain}
use csi_qsd.Go.Table.{lookup}
use csi_qsd.Host.{Host}
use csi_qsd.Qsd.Graph.Invariant.{IsForest}
use csi_qsd.Qsd.Graph.Preserve.{Changes-IsForest}
use csi_qsd.Qsd.Server.State.{QcowImage, Server, Sys}
use csi_qsd.Qsd.Requests.{
  Request, create_volume, expose_vhost_user, delete_volume, delete_exporter, create_snapshot,
  delete_snapshot, dispatch,
}
use csi_qsd.Qsd.Requests.Safety.{empty-IsForest, expose-server, unexpose-server}
use csi_qsd.Qsd.Daemon.{IsDaemon}
use csi_qsd.Qsd.Daemon.Exports.{handle_expose_vhost_user-has, handle_delete_exporter-has}
use csi_qsd.Qsd.Daemon.Mirror.{IsMirrored, node_of, same-IsMirrored, empty-IsMirrored}
use csi_qsd.Qsd.Daemon.Added.{
  handle_create_volume-IsMirrored, handle_create_snapshot-IsMirrored, create_volume-Changes,
  create_snapshot-Changes,
}
use csi_qsd.Qsd.Daemon.Deletion.{IsSound}
use csi_qsd.Qsd.Daemon.Removal.{handle_delete_volume-IsSound, handle_delete_snapshot-IsSound}

-- a name that needs no escape in JSON, and is not empty, with room for one more image
pub record IsNamed (id : Text) (s : Server) : Type 0 where
  pub plain : is_plain id ≡ true
  pub proper : id ≢ text ""
  pub room : length s.images + 1 < 2 ^ 31

-- What a client has to respect where the storage daemon is as documented: the name of a new image
-- may be in use.
abbrev pub IsPlainRequest : Request → Server → Type 0
IsPlainRequest (create_volume image) s = IsNamed image.id s
IsPlainRequest (create_snapshot snapshot) s =
    IsNamed snapshot.id s × (is_plain snapshot.source_volume_id ≡ true)
IsPlainRequest (expose_vhost_user image) s = is_plain image.id ≡ true
IsPlainRequest _ s = Unit

module _ (H : Host) where
  -- the state after any number of such requests, whatever their replies
  pub data PlainRuns (s : Sys H) : Sys H → Type 0 where
    first : PlainRuns s s
    then_plain :
        (r : Request) {t : Sys H}
        → PlainRuns s t
        → IsPlainRequest r t.server
        → PlainRuns s (dispatch H r t).1

module _ (H : Host) (M : IsDaemon H) where
  sound_plain :
      (s : Sys H)
      → IsMirrored H M s.server.images s.world
      → (k : Text) (v : QcowImage) → lookup k s.server.images ≡ some v
      → is_plain v.qsd_id ≡ true
  sound_plain s R k v h = R.plain k v.qsd_id (ground (arith, h))

  module _ (never : (path : Text) (w : H.World) → (H.remove path w).0 ≡ none) where
    abbrev Sound : Sys H → Type 0
    Sound = IsSound H M never

    -- a handler that leaves the server and the nodes
    idle-IsSound :
        (s t : Sys H)
        → Sound s
        → t.server ≡ s.server
        → ((k : Text) → M.has k t.world ≡ M.has k s.world)
        → Sound t
    idle-IsSound s t S e same = record {
      forest = rw e S.forest;
      mirror =
          same-IsMirrored H M s.server.images _ s.world _ S.mirror
            (λ j. ap (λ (u : Server). node_of j u.images) e) (λ k there. same k ∙ there);
    }

    pub dispatch-IsSound :
        (r : Request) (s : Sys H) → IsPlainRequest r s.server → Sound s → Sound (dispatch H r s).1
    unfolding dispatch
    dispatch-IsSound (create_volume image) s a S = record {
      forest =
          Changes-IsForest S.forest
            (create_volume-Changes H M image s S.mirror a.plain a.proper a.room);
      mirror = handle_create_volume-IsMirrored H M image s S.mirror a.plain;
    }
    dispatch-IsSound (expose_vhost_user image) s a S =
        idle-IsSound s _ S (expose-server H image s)
          (λ k. handle_expose_vhost_user-has H M image s (sound_plain s S.mirror) k a)
    dispatch-IsSound (delete_volume image) s a S = handle_delete_volume-IsSound H M never image s S
    dispatch-IsSound (delete_exporter image) s a S =
        idle-IsSound s _ S (unexpose-server H image s)
          (handle_delete_exporter-has H M image s (sound_plain s S.mirror))
    dispatch-IsSound (create_snapshot snapshot) s (a, source) S =
        let plain : (is_plain snapshot.id && is_plain snapshot.source_volume_id) ≡ true =
          ground (arith, a.plain, source) in
        record {
          forest =
              Changes-IsForest S.forest
                (create_snapshot-Changes H M snapshot s S.mirror plain a.proper a.room);
          mirror = handle_create_snapshot-IsMirrored H M snapshot s S.mirror plain;
        }
    dispatch-IsSound (delete_snapshot snapshot) s a S =
        handle_delete_snapshot-IsSound H M never snapshot s S

    pub empty-IsSound : (s : Sys H) → s.server.images ≡ [] → Sound s
    empty-IsSound s e = record {
      forest = subst IsForest (sym e) (empty-IsForest H);
      mirror = subst (λ m. IsMirrored H M m s.world) (sym e) (empty-IsMirrored H M s.world);
    }

    -- Where the storage daemon answers as documented and os.Remove never fails: from a server with
    -- no image, after any requests whose names need no escape in JSON, new names not empty and the
    -- table of fewer than 2^31 images, the images are a forest, and each has in the daemon a node of
    -- its own, under the id that generateQSDID makes of its name. The name of a new image may be in
    -- use.
    pub PlainRuns-IsSound : (s t : Sys H) → s.server.images ≡ [] → PlainRuns H s t → Sound t
    PlainRuns-IsSound s t e first = empty-IsSound s e
    PlainRuns-IsSound s t e (then_plain r {t = u} run a) =
        dispatch-IsSound r u a (PlainRuns-IsSound s u e run)
