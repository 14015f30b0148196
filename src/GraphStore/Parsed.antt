-- ===== src/GraphStore/Parsed.antt =====
-- The header of a stored graph is read as it was written.
use frostbuild.Base.{
  ℕ, zero, suc, ◌+◌, ◌≤◌, leb, ◌==◌, ◌^◌, ◌<◌, true, List, [], ◌∷◌, ◌++◌, some, length, take, drop,
  ◌≡◌, refl, sym, ap, ◌∙◌, arith, Result, ok, length-append, take-append_self, drop-append_self,
}
use frostbuild.Base.Text.{text_eq, text_order}
use frostbuild.Graph.{BuildGraph}
use frostbuild.GraphStore.{Bytes, SourcesStamp, Packages, StoreError, u32_bytes}
use frostbuild.GraphStore.Header.{magic, version, ParsedStore, u32_of, parse_header, store_bytes}

u32_of-u32_bytes : (n : ℕ) → n < 2 ^ 32 → u32_of (u32_bytes n) ≡ n
u32_of-u32_bytes n h = omega arith

drop-add : {A : Type 0} (a b c : ℕ) (xs : List A) → c ≡ a + b → drop c xs ≡ drop b (drop a xs)
drop-add zero b c xs e = ap (λ n. drop n xs) (omega (arith, e))
drop-add (suc a) b zero xs e = absurd (omega (arith, e))
drop-add (suc a) b (suc c) [] e = sym (drop-nil b)
  where
    drop-nil : {A : Type 0} (n : ℕ) → drop {A = A} n [] ≡ []
    drop-nil zero = refl
    drop-nil (suc n) = refl
drop-add (suc a) b (suc c) (x ∷ xs) e = drop-add a b c xs (omega (arith, e))

abbrev parsed_as : SourcesStamp → Bytes → Bytes → Result StoreError ParsedStore
parsed_as stamp fingerprint payload =
    ok (record { fingerprint = fingerprint; stamp = stamp; payload = payload })

parsed_as-same :
    (stamp : SourcesStamp) {f f' y y' : Bytes}
    → f ≡ f'
    → y ≡ y'
    → parsed_as stamp f y ≡ parsed_as stamp f' y'
parsed_as-same stamp e h = cc (e, h)

-- A header whose parts are there.
parse_header-parts :
    (p : Packages) (bytes : Bytes) (stamp : SourcesStamp) (n : ℕ)
    → leb 48 (length bytes) ≡ true
    → text_eq (take 8 bytes) magic ≡ true
    → (u32_of (take 4 (drop 8 bytes)) == version) ≡ true
    → u32_of (take 4 (drop 44 bytes)) ≡ n
    → leb (48 + n) (length bytes) ≡ true
    → p.decode_stamp (take n (drop 48 bytes)) ≡ some stamp
    → parse_header p bytes
      ≡ ok (record {
        fingerprint = take 32 (drop 12 bytes);
        stamp = stamp;
        payload = drop (48 + n) bytes;
      })
unfolding parse_header
parse_header-parts p bytes stamp n a b c d e f = ground (arith, a, b, c, d, e, f)

leb-true : (a b : ℕ) → a ≤ b → leb a b ≡ true
leb-true a b h = ground arith

-- The header is read as it was written.
pub parse_header-store_bytes :
    (p : Packages) (fingerprint : Bytes) (stamp : SourcesStamp) (g : BuildGraph)
    → length fingerprint ≡ 32
    → length (p.encode_stamp stamp) < 2 ^ 32
    → p.decode_stamp (p.encode_stamp stamp) ≡ some stamp
    → parse_header p (store_bytes p fingerprint stamp g)
      ≡ ok (record { fingerprint = fingerprint; stamp = stamp; payload = p.encode_graph g })
unfolding text_eq
parse_header-store_bytes p fingerprint stamp g size short read =
    let s : Bytes = p.encode_stamp stamp in
    let payload : Bytes = p.encode_graph g in
    let n : ℕ = length s in
    let back : Bytes = u32_bytes n ++ (s ++ payload) in
    let bytes : Bytes = store_bytes p fingerprint stamp g in
    let behind : drop 44 bytes ≡ back =
      ap (λ k. drop k (fingerprint ++ back)) (sym size) ∙ drop-append_self fingerprint back in
    let body : drop 48 bytes ≡ s ++ payload = drop-add 44 4 48 bytes refl ∙ ap (drop 4) behind in
    let total : length bytes ≡ 48 + n + length payload =
      omega (arith, length-append fingerprint back, length-append s payload, size) in
    parse_header-parts p bytes stamp n (leb-true 48 (length bytes) (omega (arith, total))) refl refl
      (ap (λ b. u32_of (take 4 b)) behind ∙ u32_of-u32_bytes n short)
      (leb-true (48 + n) (length bytes) (omega (arith, total)))
      (ap (λ b. p.decode_stamp (take n b)) body
        ∙ ap p.decode_stamp (take-append_self s payload)
        ∙ read)
    ∙ parsed_as-same stamp
        (ap (λ k. take k (fingerprint ++ back)) (sym size) ∙ take-append_self fingerprint back)
        (drop-add 48 n (48 + n) bytes refl ∙ ap (drop n) body ∙ drop-append_self s payload)
