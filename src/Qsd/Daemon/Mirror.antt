-- ===== src/Qsd/Daemon/Mirror.antt =====
-- The table of images against the nodes of the storage daemon.
use csi_qsd.Base.{
  ◌≡◌, ◌∙◌, sym, true, false, not, ◌&&◌, ◌||◌, Option, none, some, arith, if◌then◌else◌, [],
  Option-cases, inl, inr,
}
use csi_qsd.Go.Text.{Text, ◌==◌, eq_iff}
use csi_qsd.Go.Plain.{is_plain}
use csi_qsd.Go.Table.{Table, lookup, insert, delete, lookup-insert, lookup-delete}
use csi_qsd.Host.{Host}
use csi_qsd.Qsd.Server.State.{QcowImage, generate_qsd_id}
use csi_qsd.Qsd.Daemon.{IsDaemon}

-- the node of an image that the table has
abbrev pub node_of : Text → Table QcowImage → Option Text
node_of k m = elim (lookup k m) [ none ↦ none | some v ↦ some v.qsd_id ]

pub node_of-insert :
    (k j : Text) (v : QcowImage) (m : Table QcowImage)
    → node_of j (insert k v m) ≡ (if k == j then some v.qsd_id else node_of j m)
node_of-insert k j v m = ground (arith, lookup-insert k j v m)

pub node_of-delete :
    (k j : Text) (m : Table QcowImage)
    → node_of j (delete k m) ≡ (if k == j then none else node_of j m)
node_of-delete k j m = ground (arith, lookup-delete k j m)

-- writing an image over with one of the same node
pub node_of-update :
    (k j : Text) (v w : QcowImage) (m : Table QcowImage)
    → lookup k m ≡ some v
    → w.qsd_id ≡ v.qsd_id
    → node_of j (insert k w m) ≡ node_of j m
node_of-update k j v w m h e = ground (arith, lookup-insert k j w m, h, e, eq_iff k j)

pub node_of-found :
    (k q : Text) (m : Table QcowImage)
    → node_of k m ≡ some q
    → (v : QcowImage) × (lookup k m ≡ some v) × (v.qsd_id ≡ q)
node_of-found k q m h = elim (Option-cases (lookup k m)) [
  | inl absent ↦ absurd (ground (arith, h, absent))
  | inr (v, found) ↦ (v, found, ground (arith, h, found))
]

module _ (H : Host) (M : IsDaemon H) where
  -- Each image has a node of its own, under the id that generateQSDID makes of its name.
  pub record IsMirrored (m : Table QcowImage) (w : H.World) : Type 0 where
    pub named : (k q : Text) → node_of k m ≡ some q → generate_qsd_id k ≡ some q
    pub plain : (k q : Text) → node_of k m ≡ some q → is_plain q ≡ true
    pub present : (k q : Text) → node_of k m ≡ some q → M.has q w ≡ true
    pub single : (j k q : Text) → node_of j m ≡ some q → node_of k m ≡ some q → j ≡ k

  pub empty-IsMirrored : (w : H.World) → IsMirrored [] w
  unfolding lookup
  empty-IsMirrored w = record {
    named = λ k q h. absurd (ground arith);
    plain = λ k q h. absurd (ground arith);
    present = λ k q h. absurd (ground arith);
    single = λ j k q h. absurd (ground arith);
  }

  module _ (m n : Table QcowImage) (w u : H.World) (R : IsMirrored m w) where
    -- the same images, over a daemon that lost no node
    pub same-IsMirrored :
        ((j : Text) → node_of j n ≡ node_of j m)
        → ((k : Text) → M.has k w ≡ true → M.has k u ≡ true)
        → IsMirrored n u
    same-IsMirrored same keeps = record {
      named = λ k q h. R.named k q (sym (same k) ∙ h);
      plain = λ k q h. R.plain k q (sym (same k) ∙ h);
      present = λ k q h. keeps q (R.present k q (sym (same k) ∙ h));
      single = λ j k q h g. R.single j k q (sym (same j) ∙ h) (sym (same k) ∙ g);
    }

    -- a name whose node is not there is not in use
    pub unused :
        (id q : Text) → generate_qsd_id id ≡ some q → M.has q w ≡ false → lookup id m ≡ none
    unused id q e free = elim (Option-cases (lookup id m)) [
      | inl absent ↦ absent
      | inr (v, found) ↦
          absurd (ground (arith, found, R.named id v.qsd_id, R.present id v.qsd_id, e, free))
    ]

    -- one more image, and its node
    pub add-IsMirrored :
        (id q : Text)
        → generate_qsd_id id ≡ some q
        → is_plain q ≡ true
        → M.has q w ≡ false
        → ((j : Text) → node_of j n ≡ (if id == j then some q else node_of j m))
        → ((k : Text) → M.has k u ≡ (q == k || M.has k w))
        → IsMirrored n u
    add-IsMirrored id q e p free added made = record {
      named = λ k r h. ground (arith, h, added k, eq_iff id k, e, R.named k r);
      plain = λ k r h. ground (arith, h, added k, p, R.plain k r);
      present = λ k r h. ground (arith, h, added k, made r, eq_iff q r, R.present k r);
      single = λ j k r h g. ground (
        arith,
        h,
        g,
        added j,
        added k,
        eq_iff id j,
        eq_iff id k,
        free,
        R.present j r,
        R.present k r,
        R.single j k r,
      );
    }

    -- one image less, and its node
    pub drop-IsMirrored :
        (id q : Text)
        → node_of id m ≡ some q
        → ((j : Text) → node_of j n ≡ (if id == j then none else node_of j m))
        → ((k : Text) → M.has k u ≡ (not (q == k) && M.has k w))
        → IsMirrored n u
    drop-IsMirrored id q here dropped lost = record {
      named = λ k r h. ground (arith, h, dropped k, R.named k r);
      plain = λ k r h. ground (arith, h, dropped k, R.plain k r);
      present = λ k r h. ground (
        arith,
        h,
        dropped k,
        lost r,
        eq_iff q r,
        eq_iff id k,
        here,
        R.present k r,
        R.single id k r,
      );
      single = λ j k r h g. ground (arith, h, g, dropped j, dropped k, R.single j k r);
    }
