-- ===== src/Driver/Twice.antt =====
-- CreateVolume of the driver for a volume that the server has an image of.
use csi_qsd.Base.{
  ◌≡◌, refl, ap, ◌∙◌, true, false, Option, none, some, [], arith, ◌⊎◌, inl, inr, Bool-cases,
  Option-cases,
}
use csi_qsd.Go.Text.{Text, text, ◌==◌}
use csi_qsd.Go.Number.{ℤ}
use csi_qsd.Go.Plain.{is_plain}
use csi_qsd.Go.Table.{lookup}
use csi_qsd.Go.Exec.{is_ok, ◌>>=◌, bind_fails}
use csi_qsd.Host.{Host, Error}
use csi_qsd.Qsd.Message.{Image}
use csi_qsd.Qsd.Server.State as Qsd
use csi_qsd.Qsd.Server.State.{QcowImage, Server}
use csi_qsd.Qsd.Server.Create
use csi_qsd.Qsd.Server.Effect.Added.{create_volume_kept}
use csi_qsd.Qsd.Requests.{dispatch}
use csi_qsd.Qsd.Requests.Safety.{expose-server}
use csi_qsd.Qsd.Daemon.{IsDaemon}
use csi_qsd.Qsd.Daemon.Taken.{volume_fails}
use csi_qsd.Driver.Csi.{Remote, CreateVolumeRequest, ContentSource}
use csi_qsd.Driver.State.{StoredVolume, Sys}
use csi_qsd.Driver.Volumes.{content_source, find_or_store, create_at, handle_create_volume}
use csi_qsd.Driver.Calls.{D}
use csi_qsd.Driver.Created.{create_at-server}
use csi_qsd.Driver.Sent.{Created, create_volume-Created, world-find_or_store, world-content_source}
use csi_qsd.Driver.Mirrored.{PlainCalls, PlainCalls-IsSound}

module _ (H : Host) (dial : Text → Option Error) (clock : Qsd.Sys H → Error ⊎ ℤ) where
  abbrev E : Remote
  E = D H dial clock

  module _ (name : Text) (w : Qsd.Sys H)
      (fails : (i : Image)
        → i.id ≡ name
        → is_ok (Create.handle_create_volume H i w).0 ≡ false) where
    create_at_fails :
        (source : Text) (size : ℤ) (answer : Option ContentSource) (v : StoredVolume) (t : Sys E)
        → t.world ≡ w
        → is_ok (create_at E name size source answer v t).0 ≡ false
    create_at_fails source size answer v t same =
        let i : Image = record { id = name; size = v.size; from_volume = source } in
        elim (Bool-cases (is_ok (create_at E name size source answer v t).0)) [
          | inr failed ↦ failed
          | inl done ↦
              let made = (create_at-server H dial clock name source size answer v t done).0 in
              absurd (
                ground (
                  arith,
                  made,
                  fails i refl,
                  ap (λ (u : Qsd.Sys H). is_ok (Create.handle_create_volume H i u).0) same,
                ))
        ]

    create_sourced_fails :
        (source : Text) (size : ℤ) (answer : Option ContentSource) (t : Sys E)
        → t.world ≡ w
        → is_ok ((find_or_store E name size >>= create_at E name size source answer) t).0 ≡ false
    create_sourced_fails source size answer t same =
        bind_fails (find_or_store E name size) (create_at E name size source answer) t (λ v _.
          create_at_fails source size answer v _
            (world-find_or_store H dial clock name size t ∙ same))

    create_from_fails :
        (size : ℤ) (o : Option ContentSource) (t : Sys E)
        → t.world ≡ w
        → is_ok
            ((content_source E o >>= λ x.
                find_or_store E name size >>= create_at E name size x.0 x.1)
              t).0
          ≡ false
    create_from_fails size o t same =
        bind_fails (content_source E o)
          (λ x. find_or_store E name size >>= create_at E name size x.0 x.1) t
          (λ x _.
            create_sourced_fails x.0 size x.1 _
              (ap (λ (u : Sys E). u.world) (world-content_source H dial clock o t) ∙ same))

    Created-server : (u : Qsd.Sys H) → Created H name w u → u.server ≡ w.server
    unfolding dispatch
    Created-server u (inl same) = ap (λ (x : Qsd.Sys H). x.server) same
    Created-server u (inr (i, named, inl once)) =
        ap (λ (x : Qsd.Sys H). x.server) once ∙ create_volume_kept H i w (fails i named)
    Created-server u (inr (i, named, inr twice)) =
        ap (λ (x : Qsd.Sys H). x.server) twice
        ∙ expose-server H i _
        ∙ create_volume_kept H i w (fails i named)

  create_volume_fails :
      (req : CreateVolumeRequest) (t : Sys E)
      → ((i : Image) → i.id ≡ req.name → is_ok (Create.handle_create_volume H i t.world).0 ≡ false)
      → (is_ok (handle_create_volume E req t).0 ≡ false)
        × ((handle_create_volume E req t).1.world.server ≡ t.world.server)
  unfolding handle_create_volume
  create_volume_fails req t fails = (
    elim (Bool-cases (req.name == text "")) [
      | inl e ↦ ground (arith, e)
      | inr e ↦ elim (Option-cases (req.capacity_range)) [
        | inl c ↦ ground (arith, e, c)
        | inr (z, c) ↦
            rw (e, c) (create_from_fails req.name t.world fails z req.volume_content_source t refl)
      ]
    ],
    Created-server req.name t.world fails _ (create_volume-Created H dial clock req t),
  )

  -- Where the storage daemon answers as documented and os.Remove never fails: after any calls of the
  -- controller service whose names need no escape in JSON, new names not empty and the table of
  -- fewer than 2^31 images, on a server that started with no image, CreateVolume of a volume that
  -- the server has an image of fails, whatever the driver has stored, and leaves the server as it
  -- is.
  pub create_volume_twice :
      (M : IsDaemon H) (never : (path : Text) (w : H.World) → (H.remove path w).0 ≡ none)
      (s t : Sys E)
      → s.world.server.images ≡ []
      → PlainCalls H dial clock s t
      → (req : CreateVolumeRequest) (v : QcowImage) → is_plain req.name ≡ true
      → lookup req.name t.world.server.images ≡ some v
      → (is_ok (handle_create_volume E req t).0 ≡ false)
        × ((handle_create_volume E req t).1.world.server ≡ t.world.server)
  create_volume_twice M never s t e run req v p found =
      let R = (PlainCalls-IsSound H dial clock M never s t e run).mirror in
      create_volume_fails req t (λ i named.
        volume_fails H M t.world R req.name v found i (ap is_plain named ∙ p)
          (ap Qsd.generate_qsd_id named))
