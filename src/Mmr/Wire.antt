-- ===== src/Mmr/Wire.antt =====
-- MMRProof::serialise() and deserialise() of src/mmr/MMRProof.cpp, over the wire format of a node.
use kiss_vm_interpreter.Prelude.{
  ℕ, zero, suc, ◌+◌, ◌%◌, ◌^◌, ◌<◌, ◌≡◌, refl, sym, ap, subst, ◌∙◌, List, [], ◌∷◌, ◌++◌, some,
  Bytes, length, length-append, arith,
}
use mathlib.Core.List.{append_assoc, append-nil}
use kiss_vm_interpreter.Serialization.{
  Read, bind_option, pure, ◌>>=◌, open_buffer, u_int32_bytes, u_int64_from, write_u_int32,
  write_u_int64, read_u_int32, read_u_int64,
}
use kiss_vm_interpreter.Serialization.Primitives.{
  behind, through, read_u_int32-bytes, read_u_int64-bytes,
}
use kiss_vm_interpreter.Mmr.{MmrProof}

-- A write adds bs; a read takes bs as a.
abbrev pub Writes : (Bytes → Bytes) → Bytes → Type 0
Writes w bs = (buf : Bytes) → w buf ≡ buf ++ bs

abbrev pub Reads : {A : Type 0} → Read A → Bytes → A → Type 0
Reads r bs a =
    (rest : Bytes) (pos : ℕ)
    → r (record { left = bs ++ rest; pos = pos }) ≡ some (a, behind rest pos (length bs))

Writes-then :
    (w v : Bytes → Bytes) (bs cs : Bytes)
    → Writes w bs
    → Writes v cs
    → Writes (λ buf. v (w buf)) (bs ++ cs)
Writes-then w v bs cs h k buf = k (w buf) ∙ (ap (λ x. x ++ cs) (h buf) ∙ append_assoc buf bs cs)

Reads-pure : {A : Type 0} (a : A) → Reads (pure a) [] a
Reads-pure a rest pos = ap (λ (p : ℕ). some (a, record { left = rest; pos = p })) (omega arith)

Reads-bind :
    {A B : Type 0} (m : Read A) (f : A → Read B) (bs cs : Bytes) (a : A) (b : B)
    → Reads m bs a
    → Reads (f a) cs b
    → Reads (m >>= f) (bs ++ cs) b
Reads-bind m f bs cs a b h k rest pos =
    ap (λ (xs : Bytes). bind_option (m (record { left = xs; pos = pos })) f)
      (append_assoc bs cs rest)
    ∙ (through f (h (cs ++ rest) pos)
        ∙ (k rest (pos + length bs)
            ∙ ap (λ (p : ℕ). some (b, record { left = rest; pos = p }))
                (omega (arith, length-append bs cs))))

-- What a proof uses of MMRData::serialise() and deserialise().
pub record NodeFormat (D : Type 0) : Type 0 where
  pub write_node : D → Bytes → Bytes
  pub read_node : Read D
  pub node_bytes : D → Bytes
  pub writes : (d : D) → Writes (write_node d) (node_bytes d)
  pub reads : (d : D) → Reads read_node (node_bytes d) d

module _ {D : Type 0} (n : NodeFormat D) where
  unfoldable pub write_each : List D → Bytes → Bytes
  write_each [] buf = buf
  write_each (d ∷ ds) buf = write_each ds (n.write_node d buf)

  -- ds.writeUInt32(size) and a loop
  unfoldable pub write_nodes : List D → Bytes → Bytes
  unfolding write_each write_u_int32
  write_nodes ds buf = write_each ds (write_u_int32 (length ds % 2 ^ 32) buf)

  unfoldable pub serialise : MmrProof D → Bytes → Bytes
  unfolding write_nodes write_u_int64
  serialise p buf = write_nodes p.right_peaks (
      write_nodes p.left_peaks (
        write_nodes p.chain
          (n.write_node p.leaf (write_u_int64 p.entry (write_u_int64 p.blocktime buf)))))

  unfoldable pub read_each : ℕ → Read (List D)
  read_each zero = pure []
  read_each (suc k) = n.read_node >>= λ d. read_each k >>= λ ds. pure (d ∷ ds)

  -- readVec
  unfoldable pub read_nodes : Read (List D)
  unfolding read_each read_u_int32
  read_nodes = read_u_int32 >>= λ k. read_each k

  -- The three lists behind the first three members.
  unfoldable pub read_lists : ℕ → ℕ → D → Read (MmrProof D)
  unfolding read_nodes
  read_lists bt e d = read_nodes >>= λ c.
      (read_nodes >>= λ l.
      (read_nodes >>= λ r.
      pure (record {
        blocktime = bt;
        entry = e;
        leaf = d;
        chain = c;
        left_peaks = l;
        right_peaks = r;
      })))

  unfoldable pub deserialise : Read (MmrProof D)
  unfolding read_lists read_u_int64
  deserialise =
      read_u_int64 >>= λ bt. (read_u_int64 >>= λ e. (n.read_node >>= λ d. read_lists bt e d))

  unfoldable each_bytes : List D → Bytes
  each_bytes [] = []
  each_bytes (d ∷ ds) = n.node_bytes d ++ (each_bytes ds ++ [])

  abbrev nodes_bytes : List D → Bytes
  nodes_bytes ds = u_int32_bytes (length ds % 2 ^ 32) ++ each_bytes ds

  abbrev proof_bytes : MmrProof D → Bytes
  proof_bytes p =
      u_int64_from 8 p.blocktime
      ++ (u_int64_from 8 p.entry
          ++ (n.node_bytes p.leaf
              ++ (nodes_bytes p.chain
                  ++ (nodes_bytes p.left_peaks ++ (nodes_bytes p.right_peaks ++ [])))))

  write_u_int64-Writes : (v : ℕ) → Writes (write_u_int64 v) (u_int64_from 8 v)
  unfolding write_u_int64
  write_u_int64-Writes v buf = refl

  write_each-Writes : (ds : List D) → Writes (write_each ds) (each_bytes ds)
  unfolding write_each each_bytes
  write_each-Writes [] = λ buf. sym (append-nil buf)
  write_each-Writes (d ∷ ds) =
      Writes-then (n.write_node d) _ _ _ (n.writes d)
        (Writes-then (write_each ds) (λ b. b) _ _ (write_each-Writes ds) (λ b. sym (append-nil b)))

  write_nodes-Writes : (ds : List D) → Writes (write_nodes ds) (nodes_bytes ds)
  unfolding write_nodes write_u_int32
  write_nodes-Writes ds =
      Writes-then (write_u_int32 (length ds % 2 ^ 32)) (write_each ds) _ _ (λ buf. refl)
        (write_each-Writes ds)

  serialise-Writes : (p : MmrProof D) → Writes (serialise p) (proof_bytes p)
  unfolding serialise
  serialise-Writes p =
      Writes-then (write_u_int64 p.blocktime) _ _ _ (write_u_int64-Writes p.blocktime) (
        Writes-then (write_u_int64 p.entry) _ _ _ (write_u_int64-Writes p.entry) (
          Writes-then (n.write_node p.leaf) _ _ _ (n.writes p.leaf) (
            Writes-then (write_nodes p.chain) _ _ _ (write_nodes-Writes p.chain) (
              Writes-then (write_nodes p.left_peaks) _ _ _ (write_nodes-Writes p.left_peaks) (
                Writes-then (write_nodes p.right_peaks) (λ b. b) _ _
                  (write_nodes-Writes p.right_peaks) (λ b. sym (append-nil b)))))))

  read_each-Reads : (ds : List D) → Reads (read_each (length ds)) (each_bytes ds) ds
  unfolding read_each each_bytes
  read_each-Reads [] = Reads-pure []
  read_each-Reads (d ∷ ds) =
      Reads-bind n.read_node (λ x. read_each (length ds) >>= λ xs. pure (x ∷ xs)) _ _ d _
        (n.reads d)
        (Reads-bind (read_each (length ds)) (λ xs. pure (d ∷ xs)) _ _ ds _ (read_each-Reads ds)
          (Reads-pure (d ∷ ds)))

  read_nodes-Reads : (ds : List D) → length ds < 4294967296 → Reads read_nodes (nodes_bytes ds) ds
  unfolding read_nodes
  read_nodes-Reads ds h =
      Reads-bind read_u_int32 (λ k. read_each k) (u_int32_bytes (length ds % 2 ^ 32))
        (each_bytes ds) (length ds % 2 ^ 32) ds
        (λ rest pos. read_u_int32-bytes rest pos (length ds % 2 ^ 32) (omega arith))
        (subst (λ k. Reads (read_each k) (each_bytes ds) ds) (omega arith) (read_each-Reads ds))

  read_u_int64-Reads : (v : ℕ) → v < 2 ^ 64 → Reads read_u_int64 (u_int64_from 8 v) v
  unfolding u_int64_from
  read_u_int64-Reads v h rest pos = read_u_int64-bytes rest pos v h

  -- What the types of the members allow: numbers of 64 bits and fewer than 2 ^ 32 nodes in a list.
  abbrev pub InRange : MmrProof D → Type 0
  InRange p =
      (p.blocktime < 2 ^ 64)
      × (p.entry < 2 ^ 64)
      × (length p.chain < 4294967296)
      × (length p.left_peaks < 4294967296)
      × (length p.right_peaks < 4294967296)

  read_lists-Reads :
      (p : MmrProof D)
      → InRange p
      → Reads
          (read_lists p.blocktime p.entry p.leaf)
          (nodes_bytes p.chain ++ (nodes_bytes p.left_peaks ++ (nodes_bytes p.right_peaks ++ [])))
          p
  unfolding read_lists
  read_lists-Reads p (a, b, c, d, e) =
      let made : List D → List D → List D → Read (MmrProof D) = λ c l r. pure (record {
        blocktime = p.blocktime;
        entry = p.entry;
        leaf = p.leaf;
        chain = c;
        left_peaks = l;
        right_peaks = r;
      }) in
      let last = nodes_bytes p.right_peaks ++ [] in
      Reads-bind read_nodes (λ c. read_nodes >>= λ l. (read_nodes >>= λ r. made c l r))
        (nodes_bytes p.chain) (nodes_bytes p.left_peaks ++ last) p.chain p
        (read_nodes-Reads p.chain c)
        (Reads-bind read_nodes (λ l. read_nodes >>= λ r. made p.chain l r)
          (nodes_bytes p.left_peaks) last p.left_peaks p (read_nodes-Reads p.left_peaks d)
          (Reads-bind read_nodes (λ r. made p.chain p.left_peaks r) (nodes_bytes p.right_peaks) []
            p.right_peaks p (read_nodes-Reads p.right_peaks e) (Reads-pure p)))

  deserialise-Reads : (p : MmrProof D) → InRange p → Reads deserialise (proof_bytes p) p
  unfolding deserialise
  deserialise-Reads p h =
      let lists =
        nodes_bytes p.chain ++ (nodes_bytes p.left_peaks ++ (nodes_bytes p.right_peaks ++ [])) in
      Reads-bind read_u_int64 (λ bt. read_u_int64 >>= λ e. (n.read_node >>= λ d. read_lists bt e d))
        (u_int64_from 8 p.blocktime) (u_int64_from 8 p.entry ++ (n.node_bytes p.leaf ++ lists))
        p.blocktime p (read_u_int64-Reads p.blocktime h.0)
        (Reads-bind read_u_int64 (λ e. n.read_node >>= λ d. read_lists p.blocktime e d)
          (u_int64_from 8 p.entry) (n.node_bytes p.leaf ++ lists) p.entry p
          (read_u_int64-Reads p.entry h.1)
          (Reads-bind n.read_node (λ d. read_lists p.blocktime p.entry d) (n.node_bytes p.leaf)
            lists p.leaf p (n.reads p.leaf) (read_lists-Reads p h)))

  -- With a wire format of nodes that is read back as written, a proof with fewer than 2 ^ 32 nodes
  -- in each of its lists is read back from what was written to an empty stream, up to its end.
  pub deserialise-serialise :
      (p : MmrProof D)
      → InRange p
      → deserialise (open_buffer (serialise p []))
        ≡ some (p, record { left = []; pos = length (serialise p []) })
  deserialise-serialise p h =
      let w : serialise p [] ≡ proof_bytes p = serialise-Writes p [] in
      ap (λ xs. deserialise (open_buffer xs)) (w ∙ sym (append-nil (proof_bytes p)))
      ∙ (deserialise-Reads p h [] 0
          ∙ ap (λ (k : ℕ). some (p, record { left = []; pos = k }))
              (omega (arith, ap (λ (xs : Bytes). length xs) w)))
