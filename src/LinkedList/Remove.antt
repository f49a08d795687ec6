-- ===== src/LinkedList/Remove.antt =====
-- `list_remove`, `list_pop` and `list_popback` of src/lib/list.c.
use neonix.Prelude.{
  ℕ, ◌≡◌, sym, ◌∙◌, ◌≢◌, true, false, some, List, [], ◌∷◌, ◌++◌, append-nil, arith,
}
use neonix.LinkedList.{Links, KList, update, list_remove}
use neonix.LinkedList.Chain.{
  has, Distinct, Chain, IsList, has-append, Distinct-append, has-insert, ne_of_has, Chain-append,
  Chain-split, has-prev, Chain-frame, Chain-retarget,
}
use neonix.LinkedList.Insert.{SameOutside, first_of_list}

-- The links before (`h`) and after (`g`) `node` is taken from between `p` and `q`.
record Taken (h g : Links) (p node q : ℕ) : Type 0 where
  node_prev : g.prev node ≡ 0
  node_next : g.next node ≡ 0
  p_next : g.next p ≡ q
  q_prev : g.prev q ≡ p
  same_next : (a : ℕ) → a ≢ p → a ≢ node → g.next a ≡ h.next a
  same_prev : (a : ℕ) → a ≢ q → a ≢ node → g.prev a ≡ h.prev a

remove-Taken :
    (node : ℕ) (h : Links)
    → node ≢ 0
    → h.prev node ≢ 0
    → h.next node ≢ 0
    → h.prev node ≢ node
    → h.next node ≢ node
    → (g : Links) × (list_remove node h ≡ some g) × Taken h g (h.prev node) node (h.next node)
unfolding list_remove
remove-Taken node h n0 p0 q0 pn qn =
    let g : Links = record {
      next = update (update h.next (h.prev node) (h.next node)) node 0;
      prev = update (update h.prev (h.next node) (h.prev node)) node 0;
    } in
    (
      g,
      ground arith,
      record {
        node_prev = ground arith;
        node_next = ground arith;
        p_next = ground arith;
        q_prev = ground arith;
        same_next = λ b x y. ground arith;
        same_prev = λ b x y. ground arith;
      },
    )

-- The nodes before `node`, with the last led to `q`.
front-Taken :
    (h g : Links) (p : ℕ) (xs : List ℕ) (node q : ℕ)
    → Chain h p xs node
    → Distinct (p ∷ xs)
    → has node (p ∷ xs) ≡ false
    → has q xs ≡ false
    → Taken h g (h.prev node) node q
    → Chain g p xs q
front-Taken h g p xs node q c d out out' s =
    Chain-retarget h g p xs node q c d s.p_next s.q_prev (λ a i ne. s.same_next a ne (ground arith))
      (λ a i. s.same_prev a (ground arith) (ground arith))

Taken-Chain :
    (h g : Links) (p : ℕ) (xs : List ℕ) (node : ℕ) (ys : List ℕ) (t : ℕ)
    → Chain h p (xs ++ node ∷ ys) t
    → Distinct (p ∷ (xs ++ node ∷ ys))
    → has t (p ∷ (xs ++ node ∷ ys)) ≡ false
    → Taken h g (h.prev node) node (h.next node)
    → Chain g p (xs ++ ys) t
Taken-Chain h g p xs node [] t c d out s =
    let (front, back) = Chain-split h p xs node [] t c in
    let (dx, dy, apart) = Distinct-append (p ∷ xs) (node ∷ []) d in
    rw (append-nil xs) (
      front-Taken h g p xs node t front dx (ground (arith, apart node))
        (ground (arith, has-append t xs (node ∷ []))) (rw (back.0) at s))
Taken-Chain h g p xs node (y ∷ ys) t c d out s =
    let (front, back) = Chain-split h p xs node (y ∷ ys) t c in
    let (dx, dy, apart) = Distinct-append (p ∷ xs) (node ∷ y ∷ ys) d in
    let s' : Taken h g (h.prev node) node y = rw (back.0) at s in
    let p_in = has-prev h p xs node front in
    Chain-append g p xs y ys t
      (front-Taken h g p xs node y front dx (ground (arith, apart node)) (ground (arith, apart y))
        s')
      (Chain-frame h g y ys t back.2
        (λ a i.
          s'.same_next a
            (λ e.
              ne_of_has a (h.prev node) (y ∷ ys) i (ground (arith, apart (h.prev node))) (sym e))
            (λ e. ne_of_has a node (y ∷ ys) i dy.0 (sym e)))
        (λ a i. s'.same_prev a (ground (arith, dy)) (ground (arith, dy)))
        (s'.same_prev t (ground (arith, has-append t xs (node ∷ y ∷ ys)))
          (ground (arith, has-append t xs (node ∷ y ∷ ys)))))

Chain-next :
    (h : Links) (p : ℕ) (xs : List ℕ) (t : ℕ) → Chain h p xs t → h.next p ≡ first_of_list xs t
Chain-next h p [] t c = c.0
Chain-next h p (x ∷ xs) t c = c.0

has-first_of_list : (ys : List ℕ) (t : ℕ) → has (first_of_list ys t) (t ∷ ys) ≡ true
has-first_of_list [] t = ground arith
has-first_of_list (y ∷ ys) t = ground arith

remove-Distinct :
    (xs : List ℕ) (node : ℕ) (ys : List ℕ)
    → Distinct (xs ++ node ∷ ys)
    → Distinct (xs ++ ys) × (has node (xs ++ ys) ≡ false)
remove-Distinct [] node ys d = (d.1, d.0)
remove-Distinct (x ∷ xs) node ys d =
    let rest = remove-Distinct xs node ys d.1 in
    (
      (ground (arith, has-insert x xs node ys, d.0), rest.0),
      ground (arith, has-insert x xs node ys, d.0, rest.1),
    )

-- What taking `node` from between `xs` and `ys` leaves.
abbrev pub Removed : Links → KList → List ℕ → ℕ → List ℕ → Links → Type 0
Removed h l xs node ys g =
    IsList g l (xs ++ ys)
    × (g.next node ≡ 0)
    × (g.prev node ≡ 0)
    × SameOutside (l.head ∷ l.tail ∷ (xs ++ node ∷ ys)) h g

module _ (h : Links) (l : KList) (xs : List ℕ) (node : ℕ) (ys : List ℕ)
    (is : IsList h l (xs ++ node ∷ ys)) where
  -- The nodes on both sides of `node`.
  sides :
      (has (h.prev node) (l.head ∷ (xs ++ ys)) ≡ true)
      × (has (h.next node) (l.tail ∷ (xs ++ ys)) ≡ true)
  sides =
      let (front, back) = Chain-split h l.head xs node ys l.tail is.chain in
      (
        ground (arith, has-prev h l.head xs node front, has-append (h.prev node) xs ys),
        ground (
          arith,
          Chain-next h node ys l.tail back,
          has-first_of_list ys l.tail,
          has-append (h.next node) xs ys,
        ),
      )

  Taken-Removed :
      (g : Links) → Taken h g (h.prev node) node (h.next node) → Removed h l xs node ys g
  Taken-Removed g s =
      let head_out = is.apart.0 in
      let tail_out = is.apart.1.0 in
      let (d, node_out) = remove-Distinct xs node ys is.apart.1.1 in
      let (p_in, q_in) = sides in
      let ah = has-insert l.head xs node ys in
      let at = has-insert l.tail xs node ys in
      let an = has-insert 0 xs node ys in
      (
        record {
          chain =
              Taken-Chain h g l.head xs node ys l.tail is.chain (ground arith, is.apart.1.1)
                (ground arith) s;
          apart = (ground arith, (ground arith, d));
          not_null = ground (arith, is.not_null);
          first =
              s.same_prev l.head
                (ne_of_has (h.next node) l.head (l.tail ∷ (xs ++ ys)) q_in (ground arith))
                (ground arith)
              ∙ is.first;
          last =
              s.same_next l.tail
                (ne_of_has (h.prev node) l.tail (l.head ∷ (xs ++ ys)) p_in (ground arith))
                (ground arith)
              ∙ is.last;
        },
        s.node_next,
        s.node_prev,
        λ a out. (
          s.same_next a
              (ne_of_has (h.prev node) a (l.head ∷ (xs ++ ys)) p_in
                (ground (arith, has-insert a xs node ys)))
              (ground (arith, has-insert a xs node ys)),
          s.same_prev a
              (ne_of_has (h.next node) a (l.tail ∷ (xs ++ ys)) q_in
                (ground (arith, has-insert a xs node ys)))
              (ground (arith, has-insert a xs node ys)),
        ),
      )

  -- `list_remove` of a node of a list succeeds: the list keeps its other nodes in their order, the
  -- node's links are cleared, and nothing outside of the list is written.
  pub list_remove-Removed : (g : Links) × (list_remove node h ≡ some g) × Removed h l xs node ys g
  list_remove-Removed =
      let (p_in, q_in) = sides in
      let (d, node_out) = remove-Distinct xs node ys is.apart.1.1 in
      let ah = has-insert l.head xs node ys in
      let at = has-insert l.tail xs node ys in
      let an = has-insert 0 xs node ys in
      let nn = is.not_null in
      let (g, run, s) =
        remove-Taken node h (ground arith)
          (λ e. ne_of_has (h.prev node) 0 (l.head ∷ (xs ++ ys)) p_in (ground arith) (sym e))
          (λ e. ne_of_has (h.next node) 0 (l.tail ∷ (xs ++ ys)) q_in (ground arith) (sym e))
          (λ e. ne_of_has (h.prev node) node (l.head ∷ (xs ++ ys)) p_in (ground arith) (sym e))
          (λ e. ne_of_has (h.next node) node (l.tail ∷ (xs ++ ys)) q_in (ground arith) (sym e)) in
      (g, run, Taken-Removed g s)
