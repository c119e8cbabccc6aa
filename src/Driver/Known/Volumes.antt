-- ===== src/Driver/Known/Volumes.antt =====
-- CreateVolume and DeleteVolume of the driver: the driver knows every image with a reference.
use mathlib.Core.Path.{subst}
use csi_qsd.Base.{
  ◌≡◌, sym, ap, ◌∙◌, true, false, ◌&&◌, ◌⊎◌, inl, inr, Option, none, some, arith, ◌++◌,
  if◌then◌else◌, Option-cases, Bool-cases,
}
use csi_qsd.Go.Text.{Text, text, ◌==◌, eq_iff}
use csi_qsd.Go.Number.{ℤ, pos}
use csi_qsd.Go.Table.{lookup, lookup-insert, lookup-delete}
use csi_qsd.Go.Exec.{replied, is_ok}
use csi_qsd.Host.{Host, Error}
use csi_qsd.Qsd.Message.{Image}
use csi_qsd.Qsd.Server.State as Qsd
use csi_qsd.Qsd.Server.State.{Server}
use csi_qsd.Qsd.Server.Effect.Held.{held}
use csi_qsd.Qsd.Server.Effect.Given.{held-create_volume}
use csi_qsd.Qsd.Server.Effect.Cleared.{held-delete_volume}
use csi_qsd.Qsd.Requests.{Request, dispatch}
use csi_qsd.Qsd.Requests.Safety.{expose-server, unexpose-server}
use csi_qsd.Driver.Csi.{Remote, CreateVolumeRequest, ContentSource, snapshot, volume, unset}
use csi_qsd.Driver.State.{Sys, delete_volume}
use csi_qsd.Qsd.Server.Export.{handle_delete_exporter}
use csi_qsd.Qsd.Server.Delete
use csi_qsd.Driver.Volumes.{
  default_node, content_source, handle_create_volume, handle_delete_volume, delete_stored,
  unexpose_and_delete,
}
use csi_qsd.Driver.Laws.{driver-delete_volume}
use csi_qsd.Driver.OverServer.{capacity, is_accepted, with_volume, driver-create_volume}
use csi_qsd.Driver.Sent.{served, Created, create_volume-Created}
use csi_qsd.Driver.Calls.{D}
use csi_qsd.Driver.Known.{is_some, IsKnown}

module _ (H : Host) (dial : Text → Option Error) (clock : Qsd.Sys H → Error ⊎ ℤ) where
  abbrev E : Remote
  E = D H dial clock

  -- the requests, as the client of the server sees them
  held-served_create :
      (i : Image) (k : Text) (w : Qsd.Sys H)
      → held k (served H (Request.create_volume i) w).server.images ≡ true
      → (held k w.server.images ≡ true) ⊎ ((i.id == k) ≡ true)
  unfolding dispatch
  held-served_create i k w h = held-create_volume H i w k h

  server-served_expose :
      (i : Image) (w : Qsd.Sys H) → (served H (Request.expose_vhost_user i) w).server ≡ w.server
  unfolding dispatch
  server-served_expose i w = expose-server H i w

  held-Created :
      (name k : Text) (w u : Qsd.Sys H)
      → Created H name w u
      → held k u.server.images ≡ true
      → (held k w.server.images ≡ true) ⊎ ((name == k) ≡ true)
  held-Created name k w u (inl same) h = inl (ground (arith, same, h))
  held-Created name k w u (inr (i, named, inl once)) h =
      subst (λ (j : Text). (held k w.server.images ≡ true) ⊎ ((j == k) ≡ true)) named
        (held-served_create i k w (ap (λ (x : Qsd.Sys H). held k x.server.images) (sym once) ∙ h))
  held-Created name k w u (inr (i, named, inr twice)) h =
      let t = served H (Request.create_volume i) w in
      subst (λ (j : Text). (held k w.server.images ≡ true) ⊎ ((j == k) ≡ true)) named
        (held-served_create i k w (
          ap (λ (x : Server). held k x.images) (sym (server-served_expose i t))
          ∙ (ap (λ (x : Qsd.Sys H). held k x.server.images) (sym twice) ∙ h)))

  create_volume_refused :
      (req : CreateVolumeRequest) (s : Sys E)
      → is_accepted req ≡ false
      → (handle_create_volume E req s).1.world ≡ s.world
  unfolding handle_create_volume content_source
  create_volume_refused req s h = elim (Bool-cases (req.name == text "")) [
    | inl e ↦ ground (arith, e)
    | inr e ↦ elim (Option-cases req.capacity_range) [
      | inl c ↦ ground (arith, e, c)
      | inr (z, c) ↦ elim (Option-cases req.volume_content_source) [
        | inl plain ↦ absurd (ground (arith, e, c, plain, h))
        | inr (o, sourced) ↦ unnamed o e z c sourced
      ]
    ]
  ]
    where
      unnamed :
          (o : ContentSource)
          → (req.name == text "") ≡ false
          → (z : ℤ) → req.capacity_range ≡ some z
          → req.volume_content_source ≡ some o
          → (handle_create_volume E req s).1.world ≡ s.world
      unnamed (snapshot id) e z c sourced = ground (arith, e, c, sourced, h)
      unnamed (volume id) e z c sourced = ground (arith, e, c, sourced, h)
      unnamed unset e z c sourced = absurd (ground (arith, e, c, sourced, h))

  pub create_volume-IsKnown :
      (req : CreateVolumeRequest) (s : Sys E)
      → IsKnown s.driver s.world.server
      → IsKnown
          (handle_create_volume E req s).1.driver
          (handle_create_volume E req s).1.world.server
  create_volume-IsKnown req s K = elim (Bool-cases (is_accepted req)) [
    | inr refused ↦ record {
      keyed = λ k v h. ground (arith, h, refused, driver-create_volume E req s, K.keyed k v);
      known = λ k h. ground (
        arith,
        h,
        refused,
        driver-create_volume E req s,
        create_volume_refused req s refused,
        K.known k,
      );
    }
    | inl taken ↦ record {
      keyed = λ k v h.
          ground (
            arith,
            h,
            taken,
            driver-create_volume E req s,
            K.keyed k v,
            stored k,
            eq_iff req.name k,
          );
      known = λ k h.
          elim (held-Created req.name k s.world (handle_create_volume E req s).1.world
            (create_volume-Created H dial clock req s) h) [
              | inl before ↦
                  ground (arith, before, taken, driver-create_volume E req s, K.known k, stored k)
              | inr new ↦
                  ground
                    (arith, new, taken, driver-create_volume E req s, stored k, eq_iff req.name k)
            ];
    }
  ]
    where
      stored :
          (k : Text)
          → lookup k (with_volume req none s.driver).storage ≡ (
              if req.name == k
              then some (record {
                id = req.name;
                size = capacity req.capacity_range;
                node = default_node;
              })
              else lookup k s.driver.storage)
      stored k =
          lookup-insert req.name k
            (record { id = req.name; size = capacity req.capacity_range; node = default_node })
            s.driver.storage

  delete_volume-held :
      (id k : Text) (s : Sys E)
      → IsKnown s.driver s.world.server
      → held k (handle_delete_volume E id s).1.world.server.images ≡ true
      → (held k s.world.server.images ≡ true)
        × ((is_ok (handle_delete_volume E id s).0
              && (id == k && is_some (lookup id s.driver.storage)))
            ≡ false)
  unfolding handle_delete_volume delete_stored unexpose_and_delete dispatch
  delete_volume-held id k s K h = elim (Bool-cases (id == text "")) [
    | inl e ↦ (ground (arith, e, h), ground (arith, e))
    | inr e ↦ elim (Option-cases (lookup id s.driver.storage)) [
      | inl new ↦ (ground (arith, e, new, h), ground (arith, e, new))
      | inr (v, there) ↦ elim (Option-cases (dial (v.node ++ (text ":" ++ s.driver.port)))) [
        | inr (f, refused) ↦
            (ground (arith, e, there, refused, h), ground (arith, e, there, refused))
        | inl connected ↦
            let i : Image = record { id = v.id; size = pos 0; from_volume = text "" } in
            let t = (handle_delete_exporter H i s.world).1 in
            let same = unexpose-server H i s.world in
            elim (replied (handle_delete_exporter H i s.world).0) [
              | inr failed ↦ (
                ground (arith, e, there, connected, failed, same, h),
                ground (arith, e, there, connected, failed),
              )
              | inl (r, unexposed) ↦
                  let left : held k (Delete.handle_delete_volume H i t).1.server.images ≡ true =
                    ground (arith, e, there, connected, unexposed, h) in
                  let both = held-delete_volume H i t k left in
                  (
                    ground (arith, same, both.0),
                    ground (arith, e, there, connected, unexposed, both.1, K.keyed id v there),
                  )
            ]
      ]
    ]
  ]

  pub delete_volume-IsKnown :
      (id : Text) (s : Sys E)
      → IsKnown s.driver s.world.server
      → IsKnown (handle_delete_volume E id s).1.driver (handle_delete_volume E id s).1.world.server
  unfolding delete_volume
  delete_volume-IsKnown id s K = record {
    keyed = λ k v h.
        ground
          (arith, h, driver-delete_volume E id s, lookup-delete id k s.driver.storage, K.keyed k v);
    known = λ k h.
        let (before, kept) = delete_volume-held id k s K h in
        ground (
          arith,
          before,
          kept,
          K.known k,
          driver-delete_volume E id s,
          lookup-delete id k s.driver.storage,
          eq_iff id k,
        );
  }
