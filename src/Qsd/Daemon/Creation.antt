-- ===== src/Qsd/Daemon/Creation.antt =====
-- CreateVolume and CreateSnapshot against the nodes of the storage daemon.
use csi_qsd.Base.{
  ◌≡◌, refl, Bool, true, false, ◌&&◌, none, some, arith, if◌then◌else◌, Bool-cases, Option-cases,
  inl, inr, ◌++◌, length,
}
use csi_qsd.Go.Text.{Text, text, ◌==◌, trim_prefix}
use csi_qsd.Go.Number.{format_int, is_below_one}
use csi_qsd.Go.Plain.{is_plain, is_plain-append, is_plain-trim_prefix, is_plain-slice_to}
use csi_qsd.Go.Table.{lookup}
use csi_qsd.Go.Exec.{Outcome, is_ok}
use csi_qsd.Host.{Host, Error}
use csi_qsd.Qsd.Message.{Image, Snapshot}
use csi_qsd.Qsd.Commands.Manager.{create_volume, create_snapshot, create_snapshot_with_backing_node}
use csi_qsd.Qsd.Server.State.{
  QcowImage, Sys, generate_qsd_id, join, images_dir, disk_img, snapshot_prefix,
}
use csi_qsd.Qsd.Server.Create.{create_empty, create_clone, handle_create_volume}
use csi_qsd.Qsd.Server.Snapshots.{add_overlay, handle_create_snapshot}
use csi_qsd.Qsd.Daemon.{IsDaemon}
use csi_qsd.Qsd.Daemon.Commands.{Makes, Makes-as, Makes-failed}
use csi_qsd.Qsd.Daemon.Manage.{create_volume-Makes, backed-Makes, create_snapshot-Makes}

-- an id of a plain name is plain
pub is_plain-generate_qsd_id :
    (id q : Text) → is_plain id ≡ true → generate_qsd_id id ≡ some q → is_plain q ≡ true
unfolding generate_qsd_id
is_plain-generate_qsd_id id q p e = ground (
  arith,
  is_plain-slice_to 8 id q,
  is_plain-slice_to (length id) id q,
  is_plain-slice_to 8 (trim_prefix id (text "pvc-")) q,
  is_plain-slice_to (length id) (trim_prefix id (text "pvc-")) q,
  is_plain-slice_to 8 (trim_prefix id (text "snapshot-")) q,
  is_plain-slice_to (length id) (trim_prefix id (text "snapshot-")) q,
  is_plain-trim_prefix id (text "pvc-"),
  is_plain-trim_prefix id (text "snapshot-"),
)

pub plain_disk :
    (id : Text) → is_plain id ≡ true → is_plain (join (join images_dir id) disk_img) ≡ true
unfolding is_plain text
plain_disk id p = ground (arith, is_plain-append id (text "/" ++ disk_img), p)

pub plain_snapshot :
    (id q : Text)
    → (is_plain id && is_plain q) ≡ true
    → is_plain (join (join images_dir id) (snapshot_prefix ++ (text "-" ++ q))) ≡ true
unfolding is_plain text
plain_snapshot id q p =
    ground (arith, is_plain-append id (text "/" ++ (snapshot_prefix ++ (text "-" ++ q))), p)

module _ (H : Host) (M : IsDaemon H) (image : Image) (s : Sys H) (q : Text)
    (e : generate_qsd_id image.id ≡ some q) (p : is_plain image.id ≡ true) where
  abbrev pub made_dir : H.World
  made_dir = (H.mkdir_all (join images_dir image.id) s.world).1

  abbrev pub disk : Text
  disk = join (join images_dir image.id) disk_img

  abbrev pub Handled : (Bool → H.World → Type 0) → Type 0
  Handled P = P (is_ok (handle_create_volume H image s).0) (handle_create_volume H image s).1.world

  volume_failed :
      (x : Error)
      → (H.mkdir_all (join images_dir image.id) s.world).0 ≡ some x
      → Handled (λ ran t. (ran ≡ false) × (t ≡ made_dir))
  unfolding handle_create_volume
  volume_failed x h = (ground (arith, h), ground (arith, h))

  pub volume_empty :
      (image.from_volume == text "") ≡ true
      → (H.mkdir_all (join images_dir image.id) s.world).0 ≡ none
      → Handled (λ ran t.
        (ran ≡ is_ok (create_volume H disk q (format_int image.size) made_dir).0)
        × (t ≡ (create_volume H disk q (format_int image.size) made_dir).1))
  unfolding handle_create_volume create_empty
  volume_empty root h = (ground (arith, h, e, root), ground (arith, h, e, root))

  volume_unsourced :
      (image.from_volume == text "") ≡ false
      → (H.mkdir_all (join images_dir image.id) s.world).0 ≡ none
      → lookup image.from_volume s.server.images ≡ none
      → Handled (λ ran t. (ran ≡ false) × (t ≡ made_dir))
  unfolding handle_create_volume create_clone
  volume_unsourced child h lost =
      (ground (arith, h, e, child, lost), ground (arith, h, e, child, lost))

  pub volume_clone :
      (b : QcowImage)
      → (image.from_volume == text "") ≡ false
      → (H.mkdir_all (join images_dir image.id) s.world).0 ≡ none
      → lookup image.from_volume s.server.images ≡ some b
      → Handled (λ ran t.
        (ran
          ≡ is_ok (create_snapshot_with_backing_node H b.qsd_id q b.file disk b.qsd_id made_dir).0)
        × (t ≡ (create_snapshot_with_backing_node H b.qsd_id q b.file disk b.qsd_id made_dir).1))
  unfolding handle_create_volume create_clone
  volume_clone b child h found =
      (ground (arith, h, e, child, found), ground (arith, h, e, child, found))

  -- CreateVolume makes the node of the volume where it succeeds.
  pub handle_create_volume-Makes :
      ((k : Text) (b : QcowImage) → lookup k s.server.images ≡ some b → is_plain b.qsd_id ≡ true)
      → Handled (λ ran t. Makes H M q ran s.world t)
  handle_create_volume-Makes plain =
      let same = λ (k : Text). M.mkdir_keeps (join images_dir image.id) k s.world in
      elim (Option-cases (H.mkdir_all (join images_dir image.id) s.world).0) [
        | inr (x, h) ↦ Makes-failed H M same (volume_failed x h)
        | inl h ↦ elim (Bool-cases (image.from_volume == text "")) [
          | inl root ↦ Makes-as H M same (volume_empty root h) (
              create_volume-Makes H M disk q (format_int image.size) made_dir
                (ground (arith, plain_disk image.id p, is_plain-generate_qsd_id image.id q p e)))
          | inr child ↦ elim (Option-cases (lookup image.from_volume s.server.images)) [
            | inl lost ↦ Makes-failed H M same (volume_unsourced child h lost)
            | inr (b, found) ↦ Makes-as H M same (volume_clone b child h found) (
                backed-Makes H M b.qsd_id q b.file disk b.qsd_id made_dir (
                  ground (
                    arith,
                    plain_disk image.id p,
                    is_plain-generate_qsd_id image.id q p e,
                    plain image.from_volume b found,
                  )))
          ]
        ]
      ]

module _ (H : Host) (M : IsDaemon H) (snapshot : Snapshot) (s : Sys H) (q : Text)
    (e : generate_qsd_id snapshot.id ≡ some q)
    (p : (is_plain snapshot.id && is_plain snapshot.source_volume_id) ≡ true) where
  abbrev pub dir : Text
  dir = join images_dir snapshot.source_volume_id

  abbrev pub file : Text
  file = join dir (snapshot_prefix ++ (text "-" ++ q))

  abbrev pub checked : H.World
  checked = (H.stat dir s.world).1

  abbrev pub Answered : (Bool → H.World → Type 0) → Type 0
  Answered P =
      P (is_ok (handle_create_snapshot H snapshot s).0)
        (handle_create_snapshot H snapshot s).1.world

  snapshot_inactive :
      lookup snapshot.source_volume_id s.server.active_layers ≡ none
      → Answered (λ ran t. (ran ≡ false) × (t ≡ s.world))
  unfolding handle_create_snapshot
  snapshot_inactive h = (ground (arith, h), ground (arith, h))

  module _ (layer : Text)
      (active : lookup snapshot.source_volume_id s.server.active_layers ≡ some layer) where
    snapshot_lost :
        lookup layer s.server.images ≡ none → Answered (λ ran t. (ran ≡ false) × (t ≡ s.world))
    unfolding handle_create_snapshot
    snapshot_lost h = (ground (arith, h, active), ground (arith, h, active))

    module _ (i : QcowImage) (found : lookup layer s.server.images ≡ some i) where
      snapshot_failed :
          (x : Error)
          → (H.stat dir s.world).0 ≡ some x
          → Answered (λ ran t. (ran ≡ false) × (t ≡ checked))
      unfolding handle_create_snapshot
      snapshot_failed x h = (ground (arith, h, active, found), ground (arith, h, active, found))

      abbrev pub overlay : Outcome Error Unit × H.World
      overlay =
          if is_below_one i.ref_count
          then create_snapshot H i.qsd_id q i.file file checked
          else create_snapshot_with_backing_node H i.qsd_id q i.file file i.qsd_id checked

      pub snapshot_made :
          (H.stat dir s.world).0 ≡ none
          → Answered (λ ran t. (ran ≡ is_ok overlay.0) × (t ≡ overlay.1))
      unfolding handle_create_snapshot add_overlay
      snapshot_made h = (ground (arith, h, e, active, found), ground (arith, h, e, active, found))

      overlay-Makes : is_plain i.qsd_id ≡ true → Makes H M q (is_ok overlay.0) checked overlay.1
      overlay-Makes plain =
          let fine = is_plain-generate_qsd_id snapshot.id q (ground arith) e in
          let place = plain_snapshot snapshot.source_volume_id q (ground arith) in
          elim (Bool-cases (is_below_one i.ref_count)) [
            | inl free ↦
                rw free (create_snapshot-Makes H M i.qsd_id q i.file file checked (ground arith))
            | inr used ↦
                rw used (backed-Makes H M i.qsd_id q i.file file i.qsd_id checked (ground arith))
          ]

  -- CreateSnapshot makes the node of the snapshot where it succeeds.
  pub handle_create_snapshot-Makes :
      ((k : Text) (b : QcowImage) → lookup k s.server.images ≡ some b → is_plain b.qsd_id ≡ true)
      → Answered (λ ran t. Makes H M q ran s.world t)
  handle_create_snapshot-Makes plain =
      elim (Option-cases (lookup snapshot.source_volume_id s.server.active_layers)) [
        | inl h ↦ Makes-failed H M (λ k. refl) (snapshot_inactive h)
        | inr (layer, active) ↦ elim (Option-cases (lookup layer s.server.images)) [
          | inl h ↦ Makes-failed H M (λ k. refl) (snapshot_lost layer active h)
          | inr (i, found) ↦ elim (Option-cases (H.stat dir s.world).0) [
            | inr (x, h) ↦
                Makes-failed H M (λ k. M.stat_keeps dir k s.world)
                  (snapshot_failed layer active i found x h)
            | inl h ↦
                Makes-as H M (λ k. M.stat_keeps dir k s.world)
                  (snapshot_made layer active i found h)
                  (overlay-Makes layer active i found (plain layer i found))
          ]
        ]
      ]
