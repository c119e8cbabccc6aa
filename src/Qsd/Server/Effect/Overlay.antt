-- ===== src/Qsd/Server/Effect/Overlay.antt =====
-- CreateSnapshot.
use csi_qsd.Base.{
  ◌+◌, ◌^◌, ◌<◌, ◌≡◌, ◌≢◌, true, false, Bool, none, some, arith, length, Bool-cases, Option-cases,
  inl, inr, refl, sym, ap,
}
use mathlib.Core.Path.{subst}
use csi_qsd.Go.Text.{Text, text}
use csi_qsd.Go.Number.{increment}
use csi_qsd.Go.Table.{Table, lookup, insert}
use csi_qsd.Go.Exec.{is_ok}
use csi_qsd.Host.{Host}
use csi_qsd.Qsd.Message.{Snapshot}
use csi_qsd.Qsd.Graph.Change.{Changes, stay, one, add_child}
use csi_qsd.Qsd.Server.State.{QcowImage, Server, Sys, generate_qsd_id}
use csi_qsd.Qsd.Server.Snapshots.{handle_create_snapshot}
use csi_qsd.Qsd.Server.Effect.Creation.{new_snapshot, raise_count}

module _ (H : Host) (snapshot : Snapshot) (s : Sys H) where
  abbrev after : Table QcowImage
  after = (handle_create_snapshot H snapshot s).1.server.images

  abbrev done : Bool
  done = is_ok (handle_create_snapshot H snapshot s).0

  pub create_snapshot_fails :
      done ≡ false → (handle_create_snapshot H snapshot s).1.server ≡ s.server
  unfolding handle_create_snapshot
  create_snapshot_fails h = ground arith

  pub create_snapshot_named : done ≡ true → generate_qsd_id snapshot.id ≢ none
  unfolding handle_create_snapshot
  create_snapshot_named h e = ground arith

  pub create_snapshot_active :
      done ≡ true → lookup snapshot.source_volume_id s.server.active_layers ≢ none
  unfolding handle_create_snapshot
  create_snapshot_active h e = ground arith

  pub create_snapshot_found :
      (layer : Text)
      → lookup snapshot.source_volume_id s.server.active_layers ≡ some layer
      → done ≡ true
      → lookup layer s.server.images ≢ none
  unfolding handle_create_snapshot
  create_snapshot_found layer active h e = ground arith

  module _ (layer q : Text) (b : QcowImage) (named : generate_qsd_id snapshot.id ≡ some q)
      (active : lookup snapshot.source_volume_id s.server.active_layers ≡ some layer)
      (found : lookup layer s.server.images ≡ some b) (h : done ≡ true) where
    pub create_snapshot_lem : (handle_create_snapshot H snapshot s).1.server ≡ record (s.server) {
      images =
          insert snapshot.id
            (new_snapshot snapshot q layer (increment b.depth))
            (insert layer (raise_count b) s.server.images);
      active_layers = insert snapshot.source_volume_id snapshot.id s.server.active_layers;
    }
    unfolding handle_create_snapshot
    create_snapshot_lem = ground arith

  -- CreateSnapshot under a new name adds one image to the forest, or none.
  pub handle_create_snapshot-Changes :
      lookup snapshot.id s.server.images ≡ none
      → snapshot.id ≢ text ""
      → length s.server.images + 1 < 2 ^ 31
      → Changes s.server.images after
  handle_create_snapshot-Changes absent proper room = elim (Bool-cases done) [
    | inr h ↦
        subst (λ (t : Server). Changes s.server.images t.images) (sym (create_snapshot_fails h))
          stay
    | inl h ↦ elim (Option-cases (lookup snapshot.source_volume_id s.server.active_layers)) [
      | inl e ↦ absurd (create_snapshot_active h e)
      | inr (layer, active) ↦ elim (Option-cases (lookup layer s.server.images)) [
        | inl lost ↦ absurd (create_snapshot_found layer active h lost)
        | inr (b, found) ↦ elim (Option-cases (generate_qsd_id snapshot.id)) [
          | inl e ↦ absurd (create_snapshot_named h e)
          | inr (q, named) ↦ one (
              add_child snapshot.id (new_snapshot snapshot q layer (increment b.depth)) layer b
                absent proper room found refl refl refl refl
                (ap (λ (t : Server). t.images)
                  (create_snapshot_lem layer q b named active found h)))
        ]
      ]
    ]
  ]
