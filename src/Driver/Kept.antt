-- ===== src/Driver/Kept.antt =====
-- What a call of the controller service keeps of the server of pkg/qsd, where each request that it
-- makes keeps it.
use mathlib.Core.Path.{subst}
use csi_qsd.Base.{
  ◌≡◌, sym, false, ◌||◌, ◌⊎◌, inl, inr, Option, arith, ◌++◌, Option-cases, Bool-cases,
}
use csi_qsd.Go.Text.{Text, text, ◌==◌}
use csi_qsd.Go.Number.{ℤ, pos}
use csi_qsd.Go.Table.{lookup}
use csi_qsd.Go.Exec.{replied}
use csi_qsd.Host.{Host, Error}
use csi_qsd.Qsd.Message.{Image, Snapshot}
use csi_qsd.Qsd.Server.State as Qsd
use csi_qsd.Qsd.Server.State.{Server}
use csi_qsd.Qsd.Requests.{Request, dispatch}
use csi_qsd.Driver.Csi.{Remote, CreateVolumeRequest, CreateSnapshotRequest}
use csi_qsd.Driver.State.{Sys, is_a_snapshot}
use csi_qsd.Driver.Volumes.{unexpose_and_delete, delete_stored, handle_delete_volume}
use csi_qsd.Driver.Snapshots.{
  create_stored, find_or_create, handle_create_snapshot, delete_stored_snapshot,
  handle_delete_snapshot,
}
use csi_qsd.Driver.Calls.{
  Call, create_volume, delete_volume, delete_snapshot, create_snapshot, D, after,
}
use csi_qsd.Driver.Sent.{served, Created, create_volume-Created}

-- the snapshot that CreateSnapshot asks for
abbrev pub asked : CreateSnapshotRequest → Snapshot
asked req = record { id = req.name; source_volume_id = req.source_volume_id }

module _ (H : Host) (dial : Text → Option Error) (clock : Qsd.Sys H → Error ⊎ ℤ)
    (P : Request → Server → Type 0) (Q : Qsd.Sys H → Type 0)
    (keep : (r : Request) (w : Qsd.Sys H) → P r w.server → Q w → Q (served H r w)) where
  abbrev E : Remote
  E = D H dial clock

  -- the requests that a call may make are such as `keep` wants
  abbrev pub Fits : Call → Sys E → Type 0
  Fits (create_volume req) s =
      (i : Image)
      → i.id ≡ req.name
      → P (Request.create_volume i) s.world.server
        × ((v : Server) → P (Request.expose_vhost_user i) v)
  Fits (delete_volume id) s =
      (i : Image) (v : Server) → P (Request.delete_exporter i) v × P (Request.delete_volume i) v
  Fits (create_snapshot req) s =
      is_a_snapshot req.name s.driver ≡ false
      → P (Request.create_snapshot (asked req)) s.world.server
  Fits (delete_snapshot id) s = (i : Snapshot) (v : Server) → P (Request.delete_snapshot i) v

  create_volume_keeps :
      (req : CreateVolumeRequest) (s : Sys E) (u : Qsd.Sys H)
      → Fits (create_volume req) s
      → Q s.world
      → Created H req.name s.world u
      → Q u
  create_volume_keeps req s u fits q (inl same) = subst Q (sym same) q
  create_volume_keeps req s u fits q (inr (i, named, inl once)) =
      subst Q (sym once) (keep (Request.create_volume i) s.world (fits i named).0 q)
  create_volume_keeps req s u fits q (inr (i, named, inr twice)) = subst Q (sym twice) (
      keep (Request.expose_vhost_user i) _ ((fits i named).1 _)
        (keep (Request.create_volume i) s.world (fits i named).0 q))

  unexpose_and_delete_keeps :
      (i : Image) (s : Sys E)
      → ((v : Server) → P (Request.delete_exporter i) v × P (Request.delete_volume i) v)
      → Q s.world
      → Q (unexpose_and_delete E i s).1.world
  unfolding unexpose_and_delete
  unexpose_and_delete_keeps i s fits q =
      let first = keep (Request.delete_exporter i) s.world (fits s.world.server).0 q in
      elim (replied (dispatch H (Request.delete_exporter i) s.world).0) [
        | inr failed ↦ subst Q (ground (arith, failed)) first
        | inl (r, answered) ↦
            subst Q (ground (arith, answered)) (keep (Request.delete_volume i) _ (fits _).1 first)
      ]

  delete_volume_keeps :
      (id : Text) (s : Sys E)
      → Fits (delete_volume id) s
      → Q s.world
      → Q (handle_delete_volume E id s).1.world
  unfolding handle_delete_volume delete_stored
  delete_volume_keeps id s fits q = elim (Bool-cases (id == text "")) [
    | inl e ↦ subst Q (ground (arith, e)) q
    | inr e ↦ elim (Option-cases (lookup id s.driver.storage)) [
      | inl new ↦ subst Q (ground (arith, e, new)) q
      | inr (v, held) ↦ elim (Option-cases (dial (v.node ++ (text ":" ++ s.driver.port)))) [
        | inr (f, refused) ↦ subst Q (ground (arith, e, held, refused)) q
        | inl connected ↦
            let i : Image = record { id = v.id; size = pos 0; from_volume = text "" } in
            subst Q (ground (arith, e, held, connected)) (unexpose_and_delete_keeps i s (fits i) q)
      ]
    ]
  ]

  create_snapshot_keeps :
      (req : CreateSnapshotRequest) (s : Sys E)
      → Fits (create_snapshot req) s
      → Q s.world
      → Q (handle_create_snapshot E req s).1.world
  unfolding handle_create_snapshot find_or_create create_stored is_a_snapshot
  create_snapshot_keeps req s fits q =
      elim (Bool-cases (req.name == text "" || req.source_volume_id == text "")) [
        | inl e ↦ subst Q (ground (arith, e)) q
        | inr e ↦ elim (Option-cases (lookup req.name s.driver.snapshots)) [
          | inr (old, known) ↦ subst Q (ground (arith, e, known)) q
          | inl new ↦ elim (Option-cases (lookup req.source_volume_id s.driver.storage)) [
            | inl lost ↦ subst Q (ground (arith, e, new, lost)) q
            | inr (v, held) ↦ elim (Option-cases (dial (v.node ++ (text ":" ++ s.driver.port)))) [
              | inr (f, refused) ↦ subst Q (ground (arith, e, new, held, refused)) q
              | inl connected ↦ subst Q (ground (arith, e, new, held, connected)) (
                  keep (Request.create_snapshot (asked req)) s.world (fits (ground (arith, new))) q)
            ]
          ]
        ]
      ]

  delete_snapshot_keeps :
      (id : Text) (s : Sys E)
      → Fits (delete_snapshot id) s
      → Q s.world
      → Q (handle_delete_snapshot E id s).1.world
  unfolding handle_delete_snapshot delete_stored_snapshot
  delete_snapshot_keeps id s fits q = elim (Option-cases (lookup id s.driver.snapshots)) [
    | inl new ↦ subst Q (ground (arith, new)) q
    | inr (v, held) ↦ elim (Option-cases (dial (v.node ++ (text ":" ++ s.driver.port)))) [
      | inr (f, refused) ↦ subst Q (ground (arith, held, refused)) q
      | inl connected ↦
          let i : Snapshot = record { id = id; source_volume_id = v.source } in
          subst Q (ground (arith, held, connected))
            (keep (Request.delete_snapshot i) s.world (fits i _) q)
    ]
  ]

  pub after_keeps : (c : Call) (s : Sys E) → Fits c s → Q s.world → Q (after H dial clock c s).world
  unfolding after
  after_keeps (create_volume req) s fits q =
      create_volume_keeps req s _ fits q (create_volume-Created H dial clock req s)
  after_keeps (delete_volume id) s fits q = delete_volume_keeps id s fits q
  after_keeps (create_snapshot req) s fits q = create_snapshot_keeps req s fits q
  after_keeps (delete_snapshot id) s fits q = delete_snapshot_keeps id s fits q
