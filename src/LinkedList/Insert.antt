-- ===== src/LinkedList/Insert.antt =====
-- Insertion into a list of src/lib/list.c: `list_init`, `list_insert_before`, `list_insert_after`.
use neonix.Prelude.{
  ℕ, ◌≡◌, refl, sym, ap, ◌∙◌, ◌≢◌, true, false, some, List, [], ◌∷◌, ◌++◌, append-nil, arith,
}
use neonix.LinkedList.{Links, KList, update, list_init, list_insert_before, list_insert_after}
use neonix.LinkedList.Chain.{
  has, Distinct, Chain, IsList, has-append, Distinct-append, has-insert, Distinct-insert, ne_of_has,
  Chain-append, Chain-split, has-prev, Chain-frame, Chain-retarget,
}

-- The links before (`h`) and after (`g`) `node` is put between `p` and `q`.
pub record Put (h g : Links) (p node q : ℕ) : Type 0 where
  pub node_prev : g.prev node ≡ p
  pub node_next : g.next node ≡ q
  pub p_next : g.next p ≡ node
  pub q_prev : g.prev q ≡ node
  pub same_next : (a : ℕ) → a ≢ p → a ≢ node → g.next a ≡ h.next a
  pub same_prev : (a : ℕ) → a ≢ q → a ≢ node → g.prev a ≡ h.prev a

-- The first of `ys`, or the end.
abbrev pub first_of_list : List ℕ → ℕ → ℕ
first_of_list [] t = t
first_of_list (y ∷ ys) t = y

-- The part of the list before the new node.
front-Chain :
    (h g : Links) (p : ℕ) (xs : List ℕ) (q node : ℕ)
    → Chain h p xs q
    → Distinct (p ∷ xs)
    → has q xs ≡ false
    → has node (p ∷ xs) ≡ false
    → Put h g (h.prev q) node q
    → Chain g p xs node
front-Chain h g p xs q node c d out fresh s =
    Chain-retarget h g p xs q node c d s.p_next s.node_prev
      (λ a i ne. s.same_next a ne (ground arith))
      (λ a i. s.same_prev a (ground arith) (ground arith))

-- The part behind it.
back-Chain :
    (h g : Links) (y : ℕ) (ys : List ℕ) (t node : ℕ)
    → Chain h y ys t
    → Distinct (y ∷ ys)
    → has t (y ∷ ys) ≡ false
    → has node (t ∷ y ∷ ys) ≡ false
    → has (h.prev y) (y ∷ ys) ≡ false
    → Put h g (h.prev y) node y
    → Chain g y ys t
back-Chain h g y ys t node c d out fresh before s =
    Chain-frame h g y ys t c (λ a i. s.same_next a (ground arith) (ground arith))
      (λ a i. s.same_prev a (ground arith) (ground arith))
      (s.same_prev t (ground arith) (ground arith))

Put-Chain :
    (h g : Links) (p : ℕ) (xs ys : List ℕ) (t node : ℕ)
    → Chain h p (xs ++ ys) t
    → Distinct (p ∷ (xs ++ ys))
    → has t (p ∷ (xs ++ ys)) ≡ false
    → has node (p ∷ t ∷ (xs ++ ys)) ≡ false
    → Put h g (h.prev (first_of_list ys t)) node (first_of_list ys t)
    → Chain g p (xs ++ node ∷ ys) t
Put-Chain h g p xs [] t node c d out fresh s =
    let e : xs ++ [] ≡ xs = append-nil xs in
    Chain-append g p xs node [] t
      (front-Chain h g p xs t node (rw e at c) (rw e at d) (ground (arith, has-append t xs []))
        (ground (arith, has-append node xs [])) s)
      (s.node_next, s.q_prev)
Put-Chain h g p xs (y ∷ ys) t node c d out fresh s =
    let (front, back) = Chain-split h p xs y ys t c in
    let (dx, dy, apart) = Distinct-append (p ∷ xs) (y ∷ ys) d in
    let o1 = has-append t xs (y ∷ ys) in
    let o2 = has-append node xs (y ∷ ys) in
    Chain-append g p xs node (y ∷ ys) t
      (front-Chain h g p xs y node front dx (ground (arith, apart y)) (ground arith) s)
      (
        s.node_next,
        s.q_prev,
        back-Chain h g y ys t node back dy (ground arith) (ground arith)
            (apart (h.prev y) (has-prev h p xs y front)) s,
      )

-- The last of `xs`, or the start.
abbrev pub last_of_list : ℕ → List ℕ → ℕ
last_of_list p [] = p
last_of_list p (x ∷ xs) = last_of_list x xs

-- The links at the gap before `q`.
Chain-gap :
    (h : Links) (p : ℕ) (xs : List ℕ) (q : ℕ)
    → Chain h p xs q
    → (h.prev q ≡ last_of_list p xs) × (h.next (last_of_list p xs) ≡ q)
Chain-gap h p [] q c = (c.1, c.0)
Chain-gap h p (x ∷ xs) q c = Chain-gap h x xs q c.2

Chain-front :
    (h : Links) (p : ℕ) (xs ys : List ℕ) (t : ℕ)
    → Chain h p (xs ++ ys) t
    → Chain h p xs (first_of_list ys t)
Chain-front h p xs [] t c = rw (append-nil xs) at c
Chain-front h p xs (y ∷ ys) t c = (Chain-split h p xs y ys t c).0

insert_before-Put :
    (anchor node : ℕ) (h : Links)
    → anchor ≢ 0
    → node ≢ 0
    → node ≢ anchor
    → h.prev anchor ≢ 0
    → h.prev anchor ≢ node
    → (g : Links) × (list_insert_before anchor node h ≡ some g)
      × Put h g (h.prev anchor) node anchor
unfolding list_insert_before
insert_before-Put anchor node h a n na p pn =
    let g : Links = record {
      next = update (update h.next node anchor) (h.prev anchor) node;
      prev = update (update h.prev node (h.prev anchor)) anchor node;
    } in
    (
      g,
      ground arith,
      record {
        node_prev = ground arith;
        node_next = ground arith;
        p_next = ground arith;
        q_prev = ground arith;
        same_next = λ b x y. ground arith;
        same_prev = λ b x y. ground arith;
      },
    )

insert_after-Put :
    (anchor node : ℕ) (h : Links)
    → anchor ≢ 0
    → node ≢ 0
    → node ≢ anchor
    → h.next anchor ≢ 0
    → h.next anchor ≢ node
    → (g : Links) × (list_insert_after anchor node h ≡ some g) × Put h g anchor node (h.next anchor)
unfolding list_insert_after
insert_after-Put anchor node h a n na p pn =
    let g : Links = record {
      next = update (update h.next node (h.next anchor)) anchor node;
      prev = update (update h.prev node anchor) (h.next anchor) node;
    } in
    (
      g,
      ground arith,
      record {
        node_prev = ground arith;
        node_next = ground arith;
        p_next = ground arith;
        q_prev = ground arith;
        same_next = λ b x y. ground arith;
        same_prev = λ b x y. ground arith;
      },
    )

has-first : (xs ys : List ℕ) (t : ℕ) → has (first_of_list ys t) (t ∷ (xs ++ ys)) ≡ true
has-first xs [] t = ground arith
has-first xs (y ∷ ys) t = ground (arith, has-append y xs (y ∷ ys))

-- Nothing outside of the list and the node is written.
abbrev pub SameOutside : List ℕ → Links → Links → Type 0
SameOutside xs h g = (a : ℕ) → has a xs ≡ false → (g.next a ≡ h.next a) × (g.prev a ≡ h.prev a)

-- What inserting `node` between `xs` and `ys` leaves.
abbrev pub Inserted : Links → KList → List ℕ → List ℕ → ℕ → Links → Type 0
Inserted h l xs ys node g =
    IsList g l (xs ++ node ∷ ys) × SameOutside (l.head ∷ l.tail ∷ node ∷ (xs ++ ys)) h g

module _ (h : Links) (l : KList) (xs ys : List ℕ) (node : ℕ) (is : IsList h l (xs ++ ys))
    (fresh : has node (0 ∷ l.head ∷ l.tail ∷ (xs ++ ys)) ≡ false) where
  -- The nodes on both sides of the gap are of the list.
  has-gap :
      (has (h.prev (first_of_list ys l.tail)) (l.head ∷ (xs ++ ys)) ≡ true)
      × (has (first_of_list ys l.tail) (l.tail ∷ (xs ++ ys)) ≡ true)
  has-gap =
      let q = first_of_list ys l.tail in
      let p = h.prev q in
      (
        ground (
          arith,
          has-prev h l.head xs q (Chain-front h l.head xs ys l.tail is.chain),
          has-append p xs ys,
        ),
        has-first xs ys l.tail,
      )

  -- The nodes on both sides of the gap differ from the new one and from NULL.
  gap_ne : (q : ℕ) → has q (l.head ∷ l.tail ∷ (xs ++ ys)) ≡ true → (q ≢ 0) × (q ≢ node)
  gap_ne q i = (ground (arith, is.not_null), ground arith)

  Put-Inserted :
      (g : Links)
      → Put h g (h.prev (first_of_list ys l.tail)) node (first_of_list ys l.tail)
      → Inserted h l xs ys node g
  Put-Inserted g s =
      let head_out = is.apart.0 in
      let tail_out = is.apart.1.0 in
      let d = is.apart.1.1 in
      let q = first_of_list ys l.tail in
      let (p_in, q_in) = has-gap in
      (
        record {
          chain =
              Put-Chain h g l.head xs ys l.tail node is.chain (ground arith, d) (ground arith)
                (ground arith) s;
          apart = (
            ground (arith, has-insert l.head xs node ys),
            (
              ground (arith, has-insert l.tail xs node ys),
              Distinct-insert xs node ys d (ground arith),
            ),
          );
          not_null = ground (arith, has-insert 0 xs node ys, is.not_null);
          first =
              s.same_prev l.head (ne_of_has q l.head (l.tail ∷ (xs ++ ys)) q_in head_out)
                (ground arith)
              ∙ is.first;
          last =
              s.same_next l.tail
                (ne_of_has (h.prev q) l.tail (l.head ∷ (xs ++ ys)) p_in (ground arith))
                (ground arith)
              ∙ is.last;
        },
        λ a out. (
          s.same_next a (ne_of_has (h.prev q) a (l.head ∷ (xs ++ ys)) p_in (ground arith))
              (ground arith),
          s.same_prev a (ne_of_has q a (l.tail ∷ (xs ++ ys)) q_in (ground arith)) (ground arith),
        ),
      )

  -- `list_insert_before` at the node behind the gap.
  pub insert_before-Inserted :
      (g : Links) × (list_insert_before (first_of_list ys l.tail) node h ≡ some g)
      × Inserted h l xs ys node g
  insert_before-Inserted =
      let q = first_of_list ys l.tail in
      let (p_in, q_in) = has-gap in
      let p_ok = gap_ne (h.prev q) (ground arith) in
      let q_ok = gap_ne q (ground arith) in
      let (g, run, s) =
        insert_before-Put q node h q_ok.0 (ground arith) (λ e. q_ok.1 (sym e)) p_ok.0 p_ok.1 in
      (g, run, Put-Inserted g s)

  -- `list_insert_after` at the node before the gap.
  pub insert_after-Inserted :
      (g : Links) × (list_insert_after (last_of_list l.head xs) node h ≡ some g)
      × Inserted h l xs ys node g
  insert_after-Inserted =
      let q = first_of_list ys l.tail in
      let (p_in, q_in) = has-gap in
      let q_ok = gap_ne q (ground arith) in
      let p_ok = gap_ne (h.prev q) (ground arith) in
      let (e1, e2) = Chain-gap h l.head xs q (Chain-front h l.head xs ys l.tail is.chain) in
      let e : h.next (h.prev q) ≡ q = ap h.next e1 ∙ e2 in
      let (g, run, s) =
        insert_after-Put (h.prev q) node h p_ok.0 (ground arith) (λ e'. p_ok.1 (sym e'))
          (rw e q_ok.0) (rw e q_ok.1) in
      (g, rw (← e1) run, Put-Inserted g (rw e at s))

-- `list_init` at two distinct addresses makes an empty list there, and writes nowhere else.
pub list_init-IsList :
    (l : KList) (h : Links)
    → l.head ≢ 0
    → l.tail ≢ 0
    → l.head ≢ l.tail
    → (g : Links) × (list_init l h ≡ some g)
      × IsList g l []
      × SameOutside (l.head ∷ l.tail ∷ []) h g
unfolding list_init
list_init-IsList l h a b ne = (
  record {
    next = update (update h.next l.tail 0) l.head l.tail;
    prev = update (update h.prev l.head 0) l.tail l.head;
  },
  ground arith,
  record {
    chain = (ground arith, ground arith);
    apart = (ground arith, (refl, tt));
    not_null = ground arith;
    first = ground arith;
    last = ground arith;
  },
  λ c out. (ground arith, ground arith),
)
