-- ===== src/Driver/Sent.antt =====
-- The requests that CreateVolume of the driver makes of the server of pkg/qsd.
use mathlib.Core.Path.{subst}
use csi_qsd.Base.{◌≡◌, refl, sym, ap, ◌⊎◌, inl, inr, Option, arith, ◌++◌, Option-cases, Bool-cases}
use csi_qsd.Go.Text.{Text, text, ◌==◌}
use csi_qsd.Go.Number.{ℤ}
use csi_qsd.Go.Exec.{replied, ◌>>=◌, bind_after}
use csi_qsd.Host.{Host, Error}
use csi_qsd.Qsd.Message.{Image}
use csi_qsd.Qsd.Server.State as Qsd
use csi_qsd.Qsd.Server.State.{Server}
use csi_qsd.Qsd.Requests.{Request, dispatch}
use csi_qsd.Driver.Csi.{Remote, CreateVolumeRequest, ContentSource}
use csi_qsd.Driver.State.{StoredVolume, Sys}
use csi_qsd.Driver.Volumes.{
  content_source, find_or_store, create_and_expose, create_at, handle_create_volume,
}
use csi_qsd.Driver.Calls.{D}

module _ (H : Host) where
  abbrev pub served : Request → Qsd.Sys H → Qsd.Sys H
  served r w = (dispatch H r w).1

  -- the server after the requests of a CreateVolume: none, one, or both
  abbrev pub Created : Text → Qsd.Sys H → Qsd.Sys H → Type 0
  Created name w u =
      (u ≡ w)
      ⊎ ((i : Image) × (i.id ≡ name)
          × ((u ≡ served (Request.create_volume i) w)
              ⊎ (u ≡ served (Request.expose_vhost_user i) (served (Request.create_volume i) w))))

module _ (H : Host) (dial : Text → Option Error) (clock : Qsd.Sys H → Error ⊎ ℤ) where
  abbrev E : Remote
  E = D H dial clock

  create_and_expose-world :
      (i : Image) (s : Sys E)
      → ((create_and_expose E i s).1.world ≡ served H (Request.create_volume i) s.world)
        ⊎ ((create_and_expose E i s).1.world
            ≡ served H (Request.expose_vhost_user i) (served H (Request.create_volume i) s.world))
  unfolding create_and_expose
  create_and_expose-world i s = elim (replied (dispatch H (Request.create_volume i) s.world).0) [
    | inl (r, answered) ↦ elim (Bool-cases r.success) [
      | inl good ↦ inr (ground (arith, answered, good))
      | inr bad ↦ inl (ground (arith, answered, bad))
    ]
    | inr failed ↦ inl (ground (arith, failed))
  ]

  create_at-Created :
      (name : Text) (size : ℤ) (source : Text) (answer : Option ContentSource) (v : StoredVolume)
      (s : Sys E)
      → Created H name s.world (create_at E name size source answer v s).1.world
  unfolding create_at
  create_at-Created name size source answer v s =
      let i : Image = record { id = name; size = v.size; from_volume = source } in
      elim (Option-cases (dial (v.node ++ (text ":" ++ s.driver.port)))) [
        | inr (e, refused) ↦ inl (ground (arith, refused))
        | inl connected ↦ inr (
          i,
          refl,
          elim (create_and_expose-world i s) [
            | inl once ↦ inl (ground (arith, connected, once))
            | inr twice ↦ inr (ground (arith, connected, twice))
          ],
        )
      ]

  pub world-find_or_store :
      (name : Text) (size : ℤ) (s : Sys E) → (find_or_store E name size s).1.world ≡ s.world
  unfolding find_or_store
  world-find_or_store name size s = ground arith

  pub world-content_source : (o : Option ContentSource) (s : Sys E) → (content_source E o s).1 ≡ s
  unfolding content_source
  world-content_source o s = ground arith

  create_new-Created :
      (name : Text) (size : ℤ) (source : Text) (answer : Option ContentSource) (s : Sys E)
      → Created H name s.world
          ((find_or_store E name size >>= create_at E name size source answer) s).1.world
  create_new-Created name size source answer s =
      let same = world-find_or_store name size s in
      bind_after (λ (t : Sys E). Created H name s.world t.world) (find_or_store E name size)
        (create_at E name size source answer) s (inl same)
        (λ v _.
          subst
            (λ (w : Qsd.Sys H).
              Created H name w
                (create_at E name size source answer v (find_or_store E name size s).1).1.world)
            same (create_at-Created name size source answer v (find_or_store E name size s).1))

  create_from-Created :
      (name : Text) (size : ℤ) (o : Option ContentSource) (s : Sys E)
      → Created H name s.world
          ((content_source E o >>= λ x. find_or_store E name size >>= create_at E name size x.0 x.1)
            s).1.world
  create_from-Created name size o s =
      let same = world-content_source o s in
      let rest = λ (x : Text × Option ContentSource).
        find_or_store E name size >>= create_at E name size x.0 x.1 in
      bind_after (λ (t : Sys E). Created H name s.world t.world) (content_source E o) rest s
        (inl (ap (λ (t : Sys E). t.world) same))
        (λ x _.
          subst (λ (t : Sys E). Created H name s.world (rest x t).1.world) (sym same)
            (create_new-Created name size x.0 x.1 s))

  pub create_volume-Created :
      (req : CreateVolumeRequest) (s : Sys E)
      → Created H req.name s.world (handle_create_volume E req s).1.world
  unfolding handle_create_volume
  create_volume-Created req s = elim (Bool-cases (req.name == text "")) [
    | inl e ↦ inl (ground (arith, e))
    | inr e ↦ elim (Option-cases (req.capacity_range)) [
      | inl c ↦ inl (ground (arith, e, c))
      | inr (z, c) ↦ rw (e, c) (create_from-Created req.name z req.volume_content_source s)
    ]
  ]
