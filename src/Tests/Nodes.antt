-- ===== src/Tests/Nodes.antt =====
-- A storage daemon that keeps the names of its nodes, and does as documented.
use csi_qsd.Base.{
  ◌≡◌, refl, ◌∙◌, ap, Bool, true, false, not, ◌&&◌, ◌||◌, ◌⊎◌, Option, none, some, inl, inr, List,
  [], ◌∷◌, ◌++◌, arith, if◌then◌else◌, length, ◌=?◌,
}
use csi_qsd.Go.Text.{Text, text, ◌==◌, eq_iff, has_prefix, drop}
use csi_qsd.Go.Plain.{is_plain}
use csi_qsd.Host.{Host, Error, errorf}
use csi_qsd.Qsd.Commands.Json.{
  blockdev_add_file, blockdev_add_backed, blockdev_add_overlay, blockdev_del, blockdev_snapshot,
  block_export_add, block_export_del,
}
use csi_qsd.Qsd.Daemon.{IsDaemon}
use csi_qsd.Qsd.Daemon.Willing.{IsWilling}
use csi_qsd.Tests.Hosts.{quiet}

abbrev mark : Text
mark = text "\n    \"node-name\": \"node-"

-- what follows the mark
unfoldable behind : Text → Text → Text
unfolding has_prefix drop
behind p [] = []
behind p (c ∷ s) =
    let rest = behind p s in if has_prefix (c ∷ s) p then drop (length p) (c ∷ s) else rest

unfoldable until_quote : Text → Text
until_quote [] = []
until_quote (c ∷ s) = let rest = until_quote s in if c =? b'"' then [] else c ∷ rest

-- the id of the node that a command names
abbrev node_name : Text → Text
node_name c = until_quote (behind mark c)

unfoldable pub mem : Text → List Text → Bool
mem k [] = false
mem k (j ∷ w) = j == k || mem k w

unfoldable remove : Text → List Text → List Text
remove k [] = []
remove k (j ∷ w) = let rest = remove k w in if j == k then rest else j ∷ rest

abbrev adds : Text → Bool
adds c = has_prefix c (text "{\n  \"execute\": \"blockdev-add\"")

abbrev deletes : Text → Bool
deletes c = has_prefix c (text "{\n  \"execute\": \"blockdev-del\"")

-- the answer to a command that makes and deletes no node
abbrev reply : Option Error → Text → Error ⊎ Text
reply none c = inr []
reply (some e) c =
    if has_prefix c (text "{\n  \"execute\": \"blockdev-snapshot\"") then inl e else inr []

-- the daemon, where blockdev-snapshot fails with the error, if there is one
unfoldable pub answer : Option Error → Text → List Text → (Error ⊎ Text) × List Text
unfolding behind until_quote mem remove
answer apart c w =
    if adds c
    then (if mem (node_name c) w
        then (inl (errorf (text "Duplicate node")), w)
        else (inr [], node_name c ∷ w))
    else if deletes c
    then (if mem (node_name c) w
        then (inr [], remove (node_name c) w)
        else (inl (errorf (text "Node not found")), w))
    else (reply apart c, w)

-- the host whose world is the list of the nodes, and what os.Remove answers
abbrev pub storage : Option Error → Option Error → Host
storage apart removal = record quiet { run = answer apart; remove = λ path w. (removal, w) }

mem-remove : (i k : Text) (w : List Text) → mem k (remove i w) ≡ (not (i == k) && mem k w)
unfolding mem remove
mem-remove i k [] = ground arith
mem-remove i k (j ∷ w) = ground (arith, mem-remove i k w, eq_iff j i, eq_iff j k, eq_iff i k)

-- no line break, no mark
behind-plain :
    (s rest p : Text) → is_plain s ≡ true → behind (10 ∷ p) (s ++ rest) ≡ behind (10 ∷ p) rest
unfolding behind is_plain has_prefix
behind-plain [] rest p h = refl
behind-plain (c ∷ s) rest p h = ground (arith, behind-plain s rest p)

abbrev mark_end : Text
mark_end = text "    \"node-name\": \"node-"

until_quote-plain : (s rest : Text) → is_plain s ≡ true → until_quote (s ++ (b'"' ∷ rest)) ≡ s
unfolding until_quote is_plain
until_quote-plain [] rest p = refl
until_quote-plain (c ∷ s) rest p = ground (arith, until_quote-plain s rest)

module _ (apart : Option Error) (c id : Text) (w : List Text) (named : node_name c ≡ id) where
  answer-adds :
      (k raw : Text)
      → adds c ≡ true
      → (answer apart c w).0 ≡ inr raw
      → (mem id w ≡ false) × (mem k (answer apart c w).1 ≡ (id == k || mem k w))
  unfolding answer mem
  answer-adds k raw add h = (ground (arith, add, h, named), ground (arith, add, h, named))

  answer-deletes :
      (k raw : Text)
      → adds c ≡ false
      → deletes c ≡ true
      → (answer apart c w).0 ≡ inr raw
      → (mem id w ≡ true) × (mem k (answer apart c w).1 ≡ (not (id == k) && mem k w))
  unfolding answer
  answer-deletes k raw other del h = (
    ground (arith, other, del, h, named),
    ground (arith, other, del, h, named, mem-remove id k w),
  )

answer_refused :
    (apart : Option Error) (c k : Text) (w : List Text) (e : Error)
    → (answer apart c w).0 ≡ inl e
    → mem k (answer apart c w).1 ≡ mem k w
unfolding answer
answer_refused apart c k w e h = ground arith

abbrev end_file : Text
end_file = text "\n" ++ (text "  }\n" ++ text "}")

abbrev end : Text
end = text "}}"

name_file :
    (file id : Text)
    → (is_plain file && is_plain id) ≡ true
    → node_name (blockdev_add_file file id) ≡ id
unfolding behind until_quote text blockdev_add_file has_prefix drop
name_file file id p =
    ap until_quote (
      behind-plain file (text "\",\n    \"node-name\": \"node-" ++ (id ++ (b'"' ∷ end_file)))
        mark_end (ground (arith, p)))
    ∙ until_quote-plain id end_file (ground (arith, p))

name_overlay :
    (file id : Text)
    → (is_plain file && is_plain id) ≡ true
    → node_name (blockdev_add_overlay file id) ≡ id
unfolding behind until_quote text blockdev_add_overlay has_prefix drop
name_overlay file id p =
    ap until_quote (
      behind-plain file
        (text "\"},\n    \"backing\": null,\n    \"node-name\": \"node-" ++ (id ++ (b'"' ∷ end)))
        mark_end (ground (arith, p)))
    ∙ until_quote-plain id end (ground (arith, p))

name_backed :
    (file backing id : Text)
    → (is_plain file && (is_plain backing && is_plain id)) ≡ true
    → node_name (blockdev_add_backed file backing id) ≡ id
unfolding behind until_quote text blockdev_add_backed has_prefix drop
name_backed file backing id p =
    let rest = text "\",\n    \"node-name\": \"node-" ++ (id ++ (b'"' ∷ end)) in
    ap until_quote (
      behind-plain file (text "\"},\n    \"backing\": \"node-" ++ (backing ++ rest)) mark_end
        (ground (arith, p)))
    ∙ ap until_quote (behind-plain backing rest mark_end (ground (arith, p)))
    ∙ until_quote-plain id end (ground (arith, p))

name_del : (id : Text) → is_plain id ≡ true → node_name (blockdev_del id) ≡ id
unfolding behind until_quote text blockdev_del has_prefix drop
name_del id p = until_quote-plain id end p

kept :
    (apart : Option Error) (c k : Text) (w : List Text)
    → adds c ≡ false
    → deletes c ≡ false
    → mem k (answer apart c w).1 ≡ mem k w
unfolding answer
kept apart c k w add del = ground (arith, add, del)

pub documented : (apart removal : Option Error) → IsDaemon (storage apart removal)
unfolding has_prefix text blockdev_add_file blockdev_add_overlay blockdev_add_backed blockdev_del
    blockdev_snapshot block_export_add block_export_del
documented apart removal = record {
  has = mem;
  refused = answer_refused apart;
  added_file = λ file id k raw w p. answer-adds apart _ id w (name_file file id p) k raw refl;
  added_overlay = λ file id k raw w p. answer-adds apart _ id w (name_overlay file id p) k raw refl;
  added_backed = λ file backing id k raw w p.
      answer-adds apart _ id w (name_backed file backing id p) k raw refl;
  deleted = λ id k raw w p. answer-deletes apart _ id w (name_del id p) k raw refl refl;
  snapshot_keeps = λ id overlay k w p. kept apart (blockdev_snapshot id overlay) k w refl refl;
  export_keeps = λ id socket k w p. kept apart (block_export_add id socket) k w refl refl;
  unexport_keeps = λ id k w p. kept apart (block_export_del id) k w refl refl;
  understood = λ c raw w h. refl;
  mkdir_keeps = λ path k w. refl;
  stat_keeps = λ path k w. refl;
  remove_keeps = λ path k w. refl;
  read_dir_keeps = λ path k w. refl;
  output_keeps = λ cmd k w. refl;
}

-- nothing stands in the way of a command that makes a node
answer_made :
    (c id : Text) (w : List Text)
    → node_name c ≡ id
    → adds c ≡ true
    → mem id w ≡ false
    → (answer none c w).0 ≡ inr []
unfolding answer
answer_made c id w named add free = ground (arith, named, add, free)

pub willing : (removal : Option Error) → IsWilling (storage none removal) (documented none removal)
unfolding documented has_prefix text blockdev_add_file blockdev_add_overlay blockdev_add_backed
    blockdev_snapshot answer
willing removal = record {
  makes = λ path w. refl;
  draws = λ cmd w. refl;
  adds_file = λ file id w p free.
      ([], answer_made (blockdev_add_file file id) id w (name_file file id p) refl free);
  adds_overlay = λ file id w p free.
      ([], answer_made (blockdev_add_overlay file id) id w (name_overlay file id p) refl free);
  adds_backed = λ file backing id w p free there. (
    [],
    answer_made (blockdev_add_backed file backing id) id w (name_backed file backing id p) refl
        free,
  );
  joins = λ id overlay w p here there. ([], refl);
}

pub documented_has :
    (apart removal : Option Error) (k : Text) (w : List Text)
    → (documented apart removal).has k w ≡ mem k w
unfolding documented
documented_has apart removal k w = refl
