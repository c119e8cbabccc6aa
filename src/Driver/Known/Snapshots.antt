-- ===== src/Driver/Known/Snapshots.antt =====
-- CreateSnapshot and DeleteSnapshot of the driver: the driver knows every image with a reference.
use csi_qsd.Base.{
  ◌≡◌, sym, ap, ◌∙◌, true, false, ◌&&◌, ◌||◌, ◌⊎◌, inl, inr, Option, arith, ◌++◌, Option-cases,
  Bool-cases,
}
use csi_qsd.Go.Text.{Text, text, ◌==◌, eq_iff, ==_refl}
use csi_qsd.Go.Number.{ℤ}
use csi_qsd.Go.Table.{lookup, lookup-insert, lookup-delete}
use csi_qsd.Go.Exec.{replied, is_ok}
use csi_qsd.Host.{Host, Error}
use csi_qsd.Qsd.Message.{Snapshot}
use csi_qsd.Qsd.Server.State as Qsd
use csi_qsd.Qsd.Server.State.{Server}
use csi_qsd.Qsd.Server.Effect.Held.{held}
use csi_qsd.Qsd.Server.Effect.Given.{held-create_snapshot}
use csi_qsd.Qsd.Server.Effect.Cleared.{held-delete_snapshot}
use csi_qsd.Qsd.Requests.{dispatch}
use csi_qsd.Driver.Csi.{Remote, CreateSnapshotRequest}
use csi_qsd.Driver.State.{Sys, delete_snapshot}
use csi_qsd.Qsd.Server.Snapshots
use csi_qsd.Driver.Snapshots.{
  handle_create_snapshot, handle_delete_snapshot, find_or_create, create_stored,
  delete_stored_snapshot,
}
use csi_qsd.Driver.Laws.{driver-delete_snapshot}
use csi_qsd.Driver.Calls.{D}
use csi_qsd.Driver.Known.{is_some, IsKnown}

module _ (H : Host) (dial : Text → Option Error) (clock : Qsd.Sys H → Error ⊎ ℤ) where
  abbrev E : Remote
  E = D H dial clock

  storage-create_snapshot :
      (req : CreateSnapshotRequest) (s : Sys E)
      → (handle_create_snapshot E req s).1.driver.storage ≡ s.driver.storage
  unfolding handle_create_snapshot find_or_create create_stored
  storage-create_snapshot req s = ground arith

  snapshots-create_snapshot :
      (req : CreateSnapshotRequest) (k : Text) (s : Sys E)
      → is_some (lookup k s.driver.snapshots) ≡ true
      → is_some (lookup k (handle_create_snapshot E req s).1.driver.snapshots) ≡ true
  unfolding handle_create_snapshot find_or_create create_stored
  snapshots-create_snapshot req k s h =
      elim (Option-cases (lookup req.source_volume_id s.driver.storage)) [
        | inl lost ↦ ground (arith, lost, h)
        | inr (v, there) ↦ ground (
          arith,
          there,
          h,
          lookup-insert req.name k
              (record {
                base_id = req.name;
                node = v.node;
                source = req.source_volume_id;
                size = v.size;
              })
              s.driver.snapshots,
        )
      ]

  create_snapshot-held :
      (req : CreateSnapshotRequest) (k : Text) (s : Sys E)
      → held k (handle_create_snapshot E req s).1.world.server.images ≡ true
      → (held k s.world.server.images ≡ true)
        ⊎ (((req.name == k) ≡ true)
            × (is_some (lookup req.name (handle_create_snapshot E req s).1.driver.snapshots)
                ≡ true))
  unfolding handle_create_snapshot find_or_create create_stored dispatch
  create_snapshot-held req k s h =
      elim (Bool-cases (req.name == text "" || req.source_volume_id == text "")) [
        | inl e ↦ inl (ground (arith, e, h))
        | inr e ↦ elim (Option-cases (lookup req.name s.driver.snapshots)) [
          | inr (old, known) ↦ inl (ground (arith, e, known, h))
          | inl new ↦ elim (Option-cases (lookup req.source_volume_id s.driver.storage)) [
            | inl lost ↦ inl (ground (arith, e, new, lost, h))
            | inr (v, there) ↦ elim (Option-cases (dial (v.node ++ (text ":" ++ s.driver.port)))) [
              | inr (f, refused) ↦ inl (ground (arith, e, new, there, refused, h))
              | inl connected ↦
                  let n : Snapshot = record {
                    id = req.name;
                    source_volume_id = req.source_volume_id;
                  } in
                  let left : held k (Snapshots.handle_create_snapshot H n s.world).1.server.images
                      ≡ true =
                    ground (arith, e, new, there, connected, h) in
                  elim (held-create_snapshot H n s.world k left) [
                    | inl before ↦ inl before
                    | inr (done, named) ↦
                        elim (replied (Snapshots.handle_create_snapshot H n s.world).0) [
                          | inr failed ↦ absurd (ground (arith, done, failed))
                          | inl (r, answered) ↦ inr (
                            named,
                            ground (
                              arith,
                              e,
                              new,
                              there,
                              connected,
                              answered,
                              ==_refl req.name,
                              lookup-insert req.name req.name
                                  (record {
                                    base_id = req.name;
                                    node = v.node;
                                    source = req.source_volume_id;
                                    size = v.size;
                                  })
                                  s.driver.snapshots,
                            ),
                          )
                        ]
                  ]
            ]
          ]
        ]
      ]

  delete_snapshot-held :
      (id k : Text) (s : Sys E)
      → held k (handle_delete_snapshot E id s).1.world.server.images ≡ true
      → (held k s.world.server.images ≡ true)
        × ((is_ok (handle_delete_snapshot E id s).0
              && (id == k && is_some (lookup id s.driver.snapshots)))
            ≡ false)
  unfolding handle_delete_snapshot delete_stored_snapshot dispatch
  delete_snapshot-held id k s h = elim (Option-cases (lookup id s.driver.snapshots)) [
    | inl new ↦ (ground (arith, new, h), ground (arith, new))
    | inr (v, there) ↦ elim (Option-cases (dial (v.node ++ (text ":" ++ s.driver.port)))) [
      | inr (f, refused) ↦ (ground (arith, there, refused, h), ground (arith, there, refused))
      | inl connected ↦
          let n : Snapshot = record { id = id; source_volume_id = v.source } in
          let left : held k (Snapshots.handle_delete_snapshot H n s.world).1.server.images ≡ true =
            ground (arith, there, connected, h) in
          let both = held-delete_snapshot H n s.world k left in
          (both.0, ground (arith, there, connected, both.1))
    ]
  ]

  pub create_snapshot-IsKnown :
      (req : CreateSnapshotRequest) (s : Sys E)
      → IsKnown s.driver s.world.server
      → IsKnown
          (handle_create_snapshot E req s).1.driver
          (handle_create_snapshot E req s).1.world.server
  create_snapshot-IsKnown req s K = record {
    keyed = λ k v h. K.keyed k v (ap (lookup k) (sym (storage-create_snapshot req s)) ∙ h);
    known = λ k h. elim (create_snapshot-held req k s h) [
      | inl before ↦ ground (
        arith,
        K.known k before,
        storage-create_snapshot req s,
        snapshots-create_snapshot req k s,
      )
      | inr (new, kept) ↦ ground (arith, new, kept, eq_iff req.name k)
    ];
  }

  pub delete_snapshot-IsKnown :
      (id : Text) (s : Sys E)
      → IsKnown s.driver s.world.server
      → IsKnown
          (handle_delete_snapshot E id s).1.driver
          (handle_delete_snapshot E id s).1.world.server
  unfolding delete_snapshot
  delete_snapshot-IsKnown id s K = record {
    keyed = λ k v h. ground (arith, h, driver-delete_snapshot E id s, K.keyed k v);
    known = λ k h.
        let (before, kept) = delete_snapshot-held id k s h in
        ground (
          arith,
          before,
          kept,
          K.known k,
          driver-delete_snapshot E id s,
          lookup-delete id k s.driver.snapshots,
          eq_iff id k,
        );
  }
