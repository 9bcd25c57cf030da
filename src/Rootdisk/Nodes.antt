-- ===== src/Rootdisk/Nodes.antt =====
-- Lists of the nodes of src/rootdisk.c with some more in front, and what is looked up in them.
use nerves_initramfs.Base.{
  ℕ, ◌≤◌, ◌<◌, false, List, [], ◌∷◌, ◌++◌, ◌≡◌, refl, sym, ap, ◌∙◌, arith, ◌==◌, length,
  length-append, All, append_assoc, append_All,
}
use nerves_initramfs.Rootdisk.{RootInfo, find_root, node_at, has_parent, partition_links}

-- A node that was made behind the first `n`: it has a later address, and none of them for a parent.
pub record Later (n : ℕ) (i : RootInfo) : Type 0 where
  pub behind : n ≤ i.address
  pub no_child : (disk : ℕ) → disk < n → has_parent disk i ≡ false

-- A node that has no parent from the address `n` on.
abbrev pub Earlier : ℕ → RootInfo → Type 0
Earlier n i = (disk : ℕ) → n ≤ disk → has_parent disk i ≡ false

-- `infos` with some nodes in front, all of which have a property.
pub record Extends (P : RootInfo → Type 0) (infos result : List RootInfo) : Type 0 where
  pub front : List RootInfo
  pub split : result ≡ front ++ infos
  pub all : All P front

pub one-Extends :
    {P : RootInfo → Type 0} (x : RootInfo) (infos : List RootInfo)
    → P x
    → Extends P infos (x ∷ infos)
one-Extends x infos h = record { front = x ∷ []; split = refl; all = (h, tt) }

pub more-Extends :
    {P : RootInfo → Type 0} {infos mid result : List RootInfo}
    → Extends P infos mid
    → Extends P mid result
    → Extends P infos result
more-Extends {P} {infos} a b = record {
  front = b.front ++ a.front;
  split = b.split ∙ ap (◌++◌ b.front) a.split ∙ sym (append_assoc b.front a.front infos);
  all = append_All P b.front a.front b.all a.all;
}

pub size_le :
    {P : RootInfo → Type 0} {infos result : List RootInfo}
    → Extends P infos result
    → length infos ≤ length result
size_le {infos = infos} a =
    let sizes = ap length a.split ∙ length-append a.front infos in omega (arith, sizes)

pub All-imp {ℓ} :
    {A : Type ℓ} (P Q : A → Type 0) → ((x : A) → P x → Q x) → (xs : List A) → All P xs → All Q xs
All-imp P Q f [] all = tt
All-imp P Q f (x ∷ xs) (h, all) = (f x h, All-imp P Q f xs all)

pub All-every {ℓ} : {A : Type ℓ} (P : A → Type 0) → ((x : A) → P x) → (xs : List A) → All P xs
All-every P f [] = tt
All-every P f (x ∷ xs) = (f x, All-every P f xs)

pub partition_links-Later :
    (n disk : ℕ) (front infos : List RootInfo)
    → disk < n
    → All (Later n) front
    → partition_links disk (front ++ infos) ≡ partition_links disk infos
unfolding partition_links
partition_links-Later n disk [] infos h all = refl
partition_links-Later n disk (i ∷ front) infos h (later, all) =
    rw (later.no_child disk h) (partition_links-Later n disk front infos h all)

pub partition_links-Earlier :
    (n disk : ℕ) (infos : List RootInfo)
    → n ≤ disk
    → All (Earlier n) infos
    → partition_links disk infos ≡ []
unfolding partition_links
partition_links-Earlier n disk [] h all = refl
partition_links-Earlier n disk (i ∷ infos) h (earlier, all) =
    rw (earlier disk h) (partition_links-Earlier n disk infos h all)

pub node_at_skips :
    (n disk : ℕ) (front infos : List RootInfo)
    → disk < n
    → All (λ i. n ≤ i.address) front
    → node_at (front ++ infos) disk ≡ node_at infos disk
unfolding node_at
node_at_skips n disk [] infos h all = refl
node_at_skips n disk (i ∷ front) infos h (behind, all) =
    let rest = node_at_skips n disk front infos h all in ground arith

pub find_root_skips :
    (dev : ℕ) (front infos : List RootInfo)
    → All (λ i. (i.dev == dev) ≡ false) front
    → find_root (front ++ infos) dev ≡ find_root infos dev
unfolding find_root
find_root_skips dev [] infos all = refl
find_root_skips dev (i ∷ front) infos (other, all) = rw other (find_root_skips dev front infos all)
