-- ===== src/Qsd/Daemon/Commands.antt =====
-- What a command of the volume manager, and two steps in a row, make of the nodes of the storage
-- daemon.
use csi_qsd.Base.{
  Bool, true, false, ◌&&◌, ◌||◌, ◌≡◌, refl, ◌∙◌, sym, inl, inr, [], ◌∷◌, arith, Result-cases,
}
use mathlib.Core.Path.{subst}
use csi_qsd.Go.Text.{Text, text, ◌==◌}
use csi_qsd.Go.Plain.{is_plain}
use csi_qsd.Go.Exec.{Outcome, ok, err, panic, diverge, is_ok, ◌>>◌}
use csi_qsd.Host.{Host, Error}
use csi_qsd.Qsd.Commands.Json.{blockdev_add_file}
use csi_qsd.Qsd.Commands.Manager.{
  Manage, execute_command, execute_command_raw, qemu_img_snapshot, create_file,
}
use csi_qsd.Qsd.Daemon.{IsDaemon}

module _ (H : Host) (M : IsDaemon H) where
  -- what an action that makes a node does
  pub record Makes (id : Text) (done : Bool) (w u : H.World) : Type 0 where
    pub keeps : (k : Text) → M.has k w ≡ true → M.has k u ≡ true
    pub made :
        (k : Text) → done ≡ true → (M.has id w ≡ false) × (M.has k u ≡ (id == k || M.has k w))

  pub execute_command-ok :
      (c raw : Text) (w : H.World)
      → (H.run c w).0 ≡ inr raw
      → is_ok (execute_command H c w).0 ≡ true
  unfolding execute_command execute_command_raw
  execute_command-ok c raw w e = ground (arith, e, M.understood c raw w)

  pub execute_command-world : (c : Text) (w : H.World) → (execute_command H c w).1 ≡ (H.run c w).1
  unfolding execute_command execute_command_raw
  execute_command-world c w = ground arith

  pub execute_command-err :
      (c : Text) (e : Error) (w : H.World)
      → (H.run c w).0 ≡ inl e
      → is_ok (execute_command H c w).0 ≡ false
  unfolding execute_command execute_command_raw
  execute_command-err c e w h = ground (arith, h)

  -- a command with the effect of blockdev-add
  pub execute_command-Makes :
      (c id : Text) (w : H.World)
      → ((k raw : Text)
          → (H.run c w).0 ≡ inr raw
          → (M.has id w ≡ false) × (M.has k (H.run c w).1 ≡ (id == k || M.has k w)))
      → Makes id (is_ok (execute_command H c w).0) w (execute_command H c w).1
  execute_command-Makes c id w adds = elim (Result-cases (H.run c w).0) [
    | inl (e, failed) ↦ record {
      keeps = λ k h. ground (arith, h, execute_command-world c w, M.refused c k w e);
      made = λ k h. absurd (ground (arith, h, execute_command-err c e w));
    }
    | inr (raw, ran) ↦ record {
      keeps = λ k h. ground (arith, h, execute_command-world c w, (adds k raw ran).1);
      made = λ k h.
          ((adds k raw ran).0, ground (arith, execute_command-world c w, (adds k raw ran).1));
    }
  ]

  pub Makes-after :
      {id : Text} {done : Bool} {w v u : H.World}
      → ((k : Text) → M.has k v ≡ M.has k w)
      → Makes id done v u
      → Makes id done w u
  Makes-after {id} same m = record {
    keeps = λ k h. m.keeps k (same k ∙ h);
    made = λ k h. ground (arith, same k, same id, m.made k h);
  }

  Makes-none :
      {id : Text} {w u : H.World} → ((k : Text) → M.has k u ≡ M.has k w) → Makes id false w u
  Makes-none same = record { keeps = λ k h. same k ∙ h; made = λ k h. cc }

  -- the same, of an action that runs it
  pub Makes-as :
      {id : Text} {done ran : Bool} {w v u t : H.World}
      → ((k : Text) → M.has k v ≡ M.has k w)
      → (ran ≡ done) × (t ≡ u)
      → Makes id done v u
      → Makes id ran w t
  Makes-as {id} {done} {w = w} {t = t} same (e, f) m =
      subst (λ b. Makes id b w t) (sym e)
        (subst (λ x. Makes id done w x) (sym f) (Makes-after same m))

  pub Makes-failed :
      {id : Text} {ran : Bool} {w v t : H.World}
      → ((k : Text) → M.has k v ≡ M.has k w)
      → (ran ≡ false) × (t ≡ v)
      → Makes id ran w t
  Makes-failed same failed = Makes-as (λ k. refl) failed (Makes-none same)

  pub create_file-world :
      (file size format k : Text) (w : H.World)
      → M.has k (create_file H file size format w).1 ≡ M.has k w
  unfolding create_file
  create_file-world file size format k w = ground (
    arith,
    M.output_keeps (text "qemu-img" ∷ text "create" ∷ text "-f" ∷ format ∷ file ∷ size ∷ []) k w,
  )

  pub qemu_img_snapshot-world :
      (image snapshot k : Text) (w : H.World)
      → M.has k (qemu_img_snapshot H image snapshot w).1 ≡ M.has k w
  unfolding qemu_img_snapshot
  qemu_img_snapshot-world image snapshot k w = ground (
    arith,
    M.output_keeps
        (text "qemu-img"
          ∷ text "create"
          ∷ text "-f"
          ∷ text "qcow2"
          ∷ text "-F"
          ∷ text "qcow2"
          ∷ text "-b"
          ∷ image
          ∷ snapshot
          ∷ [])
        k w,
  )

  pub add_file-Makes :
      (file id : Text) (w : H.World)
      → (is_plain file && is_plain id) ≡ true
      → Makes id
          (is_ok (execute_command H (blockdev_add_file file id) w).0)
          w
          (execute_command H (blockdev_add_file file id) w).1
  add_file-Makes file id w plain =
      execute_command-Makes (blockdev_add_file file id) id w
        (λ k raw. M.added_file file id k raw w plain)

  then_of :
      {id : Text} (o : Outcome Error Unit) (n : Manage H Unit) (w u : H.World)
      → ((k : Text) → M.has k u ≡ M.has k w)
      → Makes id (is_ok (n u).0) u (n u).1
      → Makes id (is_ok (((λ _. (o, u)) >> n) w).0) w (((λ _. (o, u)) >> n) w).1
  then_of (ok a) n w u same m = Makes-after same m
  then_of (err e) n w u same m = Makes-none same
  then_of panic n w u same m = Makes-none same
  then_of diverge n w u same m = Makes-none same

  -- an action that makes no node, and then one that does
  pub then-Makes :
      {id : Text} (m n : Manage H Unit) (w : H.World)
      → ((k : Text) → M.has k (m w).1 ≡ M.has k w)
      → Makes id (is_ok (n (m w).1).0) (m w).1 (n (m w).1).1
      → Makes id (is_ok ((m >> n) w).0) w ((m >> n) w).1
  then-Makes m n w = then_of (m w).0 n w (m w).1

  before_of :
      {id : Text} (o : Outcome Error Unit) (n : Manage H Unit) (w u : H.World)
      → ((k : Text) → M.has k (n u).1 ≡ M.has k u)
      → Makes id (is_ok o) w u
      → Makes id (is_ok (((λ _. (o, u)) >> n) w).0) w (((λ _. (o, u)) >> n) w).1
  before_of {id} (ok a) n w u same m = record {
    keeps = λ k h. same k ∙ m.keeps k h;
    made = λ k h. ((m.made k refl).0, same k ∙ (m.made k refl).1);
  }
  before_of (err e) n w u same m = m
  before_of panic n w u same m = m
  before_of diverge n w u same m = m

  -- and one that makes a node before one that makes none
  pub before-Makes :
      {id : Text} (m n : Manage H Unit) (w : H.World)
      → ((k : Text) → M.has k (n (m w).1).1 ≡ M.has k (m w).1)
      → Makes id (is_ok (m w).0) w (m w).1
      → Makes id (is_ok ((m >> n) w).0) w ((m >> n) w).1
  before-Makes m n w = before_of (m w).0 n w (m w).1
