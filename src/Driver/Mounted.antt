-- ===== src/Driver/Mounted.antt =====
-- NodePublishVolume and NodeUnpublishVolume of pkg/driver/node.go over mounts that stack up.
use csi_qsd.Base.{
  ℕ, ◌+◌, ◌-◌, ◌≤◌, ◌<◌, ◌≡◌, Bool, true, false, Option, none, some, arith, if◌then◌else◌,
  Option-cases, Bool-cases, inl, inr, ◌++◌, ◌&&◌,
}
use csi_qsd.Go.Text.{Text, text, ◌==◌, ==_refl, eq_iff}
use csi_qsd.Go.Exec.{is_ok}
use csi_qsd.Host.{Error, is_not_exist}
use csi_qsd.Driver.Csi.{Mounts, NodePublishVolumeRequest, NodeUnpublishVolumeRequest}
use csi_qsd.Driver.State.{socket_dir}
use csi_qsd.Driver.Node.{node_publish_volume, node_unpublish_volume}
use csi_qsd.Driver.Publish.{made, succeeds, node_publish_volume_lem}

-- The manual of mount(2), umount(2) and os.RemoveAll: mounts at one path stack up, and a path with
-- a mount cannot be removed.
pub record IsKernel (M : Mounts) : Type 0 where
  -- how many mounts there are at a path, and whether the path is missing
  pub stacked : Text → M.World → ℕ
  pub missing : Text → M.World → Bool
  pub mkdir_keeps : (path p : Text) (w : M.World) → stacked p (M.mkdir_all path w).1 ≡ stacked p w
  pub bound :
      (source target p : Text) (w : M.World)
      → (M.bind_mount source target w).0 ≡ none
      → stacked p (M.bind_mount source target w).1
        ≡ (if target == p then stacked p w + 1 else stacked p w)
  -- an unmount takes the last mount off
  pub unbound :
      (target p : Text) (w : M.World)
      → (M.unmount target w).0 ≡ none
      → (0 < stacked target w)
        × (stacked p (M.unmount target w).1
            ≡ (if target == p then stacked p w - 1 else stacked p w))
  pub unmount_keeps :
      (target p : Text) (w : M.World) (e : Error)
      → (M.unmount target w).0 ≡ some e
      → stacked p (M.unmount target w).1 ≡ stacked p w
  pub removed :
      (path : Text) (w : M.World)
      → (M.remove_all path w).0 ≡ none
      → (stacked path w ≡ 0) × (missing path (M.remove_all path w).1 ≡ true)
  pub remove_keeps : (path p : Text) (w : M.World) → stacked p (M.remove_all path w).1 ≡ stacked p w
  -- at a missing path umount(2) fails with ENOENT, and os.RemoveAll does nothing
  pub absent :
      (path : Text) (w : M.World)
      → missing path w ≡ true
      → (is_not_exist (M.unmount path w).0 ≡ true)
        × (missing path (M.unmount path w).1 ≡ true)
        × ((M.remove_all path w).0 ≡ none)

-- the answers to Unmount that NodeUnpublishVolume goes on behind
abbrev is_tolerated : Option Error → Bool
is_tolerated none = true
is_tolerated (some e) = is_not_exist (some e)

module _ (M : Mounts) (req : NodeUnpublishVolumeRequest) (w : M.World) where
  abbrev unmounted : Option Error × M.World
  unmounted = M.unmount req.target_path w

  abbrev cleaned : Option Error × M.World
  cleaned = M.remove_all req.target_path unmounted.1

  node_unpublish_volume_lem :
      (is_ok (node_unpublish_volume M req w).0 ≡ (is_tolerated unmounted.0 && succeeds cleaned.0))
      × ((node_unpublish_volume M req w).1
          ≡ (if is_tolerated unmounted.0 then cleaned.1 else unmounted.1))
  unfolding node_unpublish_volume
  node_unpublish_volume_lem = (ground arith, ground arith)

module _ (M : Mounts) (K : IsKernel M) where
  -- a NodePublishVolume that succeeds puts one mount on the target
  pub node_publish_volume_stacked :
      (req : NodePublishVolumeRequest) (w : M.World) (p : Text)
      → is_ok (node_publish_volume M req w).0 ≡ true
      → K.stacked p (node_publish_volume M req w).1
        ≡ (if req.target_path == p then K.stacked p w + 1 else K.stacked p w)
  node_publish_volume_stacked req w p done =
      let (ran, world) = node_publish_volume_lem M req w in
      ground (
        arith,
        done,
        ran,
        world,
        K.mkdir_keeps req.target_path p w,
        K.bound (socket_dir ++ (text "/" ++ req.volume_id)) req.target_path p (made M req w).1,
      )

  module _ (req : NodeUnpublishVolumeRequest) (w : M.World) where
    mounts_left :
        (p : Text)
        → is_ok (node_unpublish_volume M req w).0 ≡ true
        → K.stacked p (node_unpublish_volume M req w).1 ≡ K.stacked p (unmounted M req w).1
    mounts_left p done =
        let (ran, world) = node_unpublish_volume_lem M req w in
        ground (arith, done, ran, world, K.remove_keeps req.target_path p (unmounted M req w).1)

    target_free :
        is_ok (node_unpublish_volume M req w).0 ≡ true
        → (K.stacked req.target_path (unmounted M req w).1 ≡ 0)
          × (K.missing req.target_path (node_unpublish_volume M req w).1 ≡ true)
    target_free done =
        let (ran, world) = node_unpublish_volume_lem M req w in
        let free = K.removed req.target_path (unmounted M req w).1 in
        (ground (arith, done, ran, free), ground (arith, done, ran, world, free))

    -- a NodeUnpublishVolume that succeeds takes away the one mount at the target, if there is one,
    -- and no other
    pub node_unpublish_volume_stacked :
        (p : Text)
        → is_ok (node_unpublish_volume M req w).0 ≡ true
        → (K.stacked req.target_path w ≤ 1)
          × (K.stacked p (node_unpublish_volume M req w).1
              ≡ (if req.target_path == p then 0 else K.stacked p w))
    node_unpublish_volume_stacked p done =
        let t = req.target_path in
        let free = (target_free done).0 in
        elim (Option-cases (M.unmount t w).0) [
          | inl off ↦ (
            ground (arith, free, K.unbound t t w off, ==_refl t),
            ground (arith, free, mounts_left p done, K.unbound t p w off, eq_iff t p),
          )
          | inr (e, failed) ↦ (
            ground (arith, free, K.unmount_keeps t t w e failed),
            ground (arith, free, mounts_left p done, K.unmount_keeps t p w e failed, eq_iff t p),
          )
        ]

    -- where the target is missing NodeUnpublishVolume succeeds
    unpublish_missing :
        K.missing req.target_path w ≡ true → is_ok (node_unpublish_volume M req w).0 ≡ true
    unpublish_missing gone =
        let (ran, world) = node_unpublish_volume_lem M req w in
        let first = K.absent req.target_path w gone in
        let second = K.absent req.target_path (unmounted M req w).1 first.1 in
        elim (Option-cases (M.unmount req.target_path w).0) [
          | inl off ↦ ground (arith, ran, off, second)
          | inr (e, failed) ↦ ground (arith, ran, failed, first, second)
        ]

  module _ (req : NodePublishVolumeRequest) (back : NodeUnpublishVolumeRequest) (w : M.World)
      (same : back.target_path ≡ req.target_path) where
    abbrev published : M.World
    published = (node_publish_volume M req w).1

    abbrev restored : M.World
    restored = (node_unpublish_volume M back published).1

    -- Where mounts stack up as documented: if NodePublishVolume and then NodeUnpublishVolume of its
    -- target succeed, each path has as many mounts as before the two calls, the target is missing,
    -- and one more NodeUnpublishVolume of it succeeds.
    pub unpublish-publish_volume :
        (p : Text)
        → is_ok (node_publish_volume M req w).0 ≡ true
        → is_ok (node_unpublish_volume M back published).0 ≡ true
        → (K.stacked p restored ≡ K.stacked p w)
          × (K.missing req.target_path restored ≡ true)
          × (is_ok (node_unpublish_volume M back restored).0 ≡ true)
    unpublish-publish_volume p put taken =
        let gone = (target_free back published taken).1 in
        (
          ground (
            arith,
            same,
            node_publish_volume_stacked req w p put,
            node_publish_volume_stacked req w req.target_path put,
            node_unpublish_volume_stacked back published p taken,
            ==_refl req.target_path,
            eq_iff req.target_path p,
          ),
          ground (arith, gone, same),
          unpublish_missing back restored gone,
        )

    -- Where mounts stack up as documented: after two calls of NodePublishVolume that succeed for one
    -- target, NodeUnpublishVolume of the target fails.
    pub node_publish_volume_twice :
        is_ok (node_publish_volume M req w).0 ≡ true
        → is_ok (node_publish_volume M req published).0 ≡ true
        → is_ok (node_unpublish_volume M back (node_publish_volume M req published).1).0 ≡ false
    node_publish_volume_twice put again =
        let u = (node_publish_volume M req published).1 in
        elim (Bool-cases (is_ok (node_unpublish_volume M back u).0)) [
          | inr failed ↦ failed
          | inl taken ↦ absurd (
              ground (
                arith,
                same,
                node_publish_volume_stacked req w req.target_path put,
                node_publish_volume_stacked req published req.target_path again,
                (node_unpublish_volume_stacked back u req.target_path taken).0,
                ==_refl req.target_path,
              ))
        ]
