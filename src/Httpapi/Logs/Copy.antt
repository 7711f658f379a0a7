-- ===== src/Httpapi/Logs/Copy.antt =====
-- What the copy loop of a log request passes on to the browser.
use tenant_deck.Base.{
  ℕ, zero, suc, ◌-◌, ◌≤◌, ◌≡◌, refl, sym, List, [], ◌∷◌, ◌++◌, append_assoc, append-nil, ◌∙◌,
  length, take, arith, take-append, Option-cases, inl, inr,
}
use tenant_deck.Std.Http.{Writer, Chunk, bytes, write, write_header, set_header}
use tenant_deck.Session.Crypto.{Bytes}
use tenant_deck.Capsule.Client.{Body}
use tenant_deck.Httpapi.Logs.{limit_reads, copy_log_stream, max_stream_bytes, send_log}

unfoldable pub concat : List Bytes → Bytes
concat [] = []
concat (chunk ∷ reads) = chunk ++ concat reads

abbrev copied_bytes : Chunk → Bytes
copied_bytes (bytes b) = b
copied_bytes _ = []

-- The copied bytes of a response's body.
unfoldable pub sent_bytes : List Chunk → Bytes
sent_bytes [] = []
sent_bytes (chunk ∷ body) = copied_bytes chunk ++ sent_bytes body

sent_bytes-append :
    (xs : List Chunk) (b : Bytes) → sent_bytes (xs ++ bytes b ∷ []) ≡ sent_bytes xs ++ b
unfolding sent_bytes
sent_bytes-append [] b = append-nil _
sent_bytes-append (x ∷ xs) b = rw (sent_bytes-append xs b, append_assoc)

write-body : (c : Chunk) (w : Writer) → (write c w).body ≡ w.body ++ c ∷ []
unfolding write
write-body c w = elim (Option-cases w.status) [
  | inl open' ↦ ground arith
  | inr (n, sent) ↦ ground arith
]

sent_bytes-write :
    (b : Bytes) (w : Writer) (later : Bytes)
    → sent_bytes w.body ++ (b ++ later) ≡ sent_bytes (write (bytes b) w).body ++ later
sent_bytes-write b w later = rw (write-body (bytes b) w, sent_bytes-append w.body b, append_assoc)

take-nil : (n : ℕ) → ◌≡◌ {A = Bytes} (take n []) []
take-nil zero = refl
take-nil (suc n) = refl

-- The limit cuts the stream as a whole, wherever the reads divide it.
pub concat-limit_reads :
    (n : ℕ) (reads : List Bytes) → concat (limit_reads n reads) ≡ take n (concat reads)
unfolding concat limit_reads
concat-limit_reads n [] = sym (take-nil n)
concat-limit_reads zero (chunk ∷ reads) = refl
concat-limit_reads (suc n) (chunk ∷ reads) =
    rw (concat-limit_reads (suc n - length chunk) reads, take-append (suc n) chunk (concat reads))

-- What is copied is a prefix of the reads; with as many writes as there are reads, it is all of them.
pub copy_log_stream_prefix :
    (writes : ℕ) (reads : List Bytes) (w : Writer)
    → (rest : Bytes) × (sent_bytes w.body ++ concat reads
        ≡ sent_bytes (copy_log_stream writes reads w).body ++ rest)
      × (length reads ≤ writes → rest ≡ [])
unfolding copy_log_stream concat write
copy_log_stream_prefix writes [] w = ([], refl, λ enough. refl)
copy_log_stream_prefix writes ([] ∷ reads) w =
    let (rest, same, all) = copy_log_stream_prefix writes reads w in
    (rest, same, λ enough. all (omega arith))
copy_log_stream_prefix zero ((b ∷ bs) ∷ reads) w =
    (concat ((b ∷ bs) ∷ reads), refl, λ enough. ground arith)
copy_log_stream_prefix (suc writes) ((b ∷ bs) ∷ reads) w =
    let (rest, same, all) = copy_log_stream_prefix writes reads (write (bytes (b ∷ bs)) w) in
    (rest, sent_bytes-write (b ∷ bs) w (concat reads) ∙ same, λ enough. all (omega arith))

length-limit_reads : (n : ℕ) (reads : List Bytes) → length (limit_reads n reads) ≤ length reads
unfolding limit_reads
length-limit_reads n [] = omega arith
length-limit_reads zero (chunk ∷ reads) = omega arith
length-limit_reads (suc n) (chunk ∷ reads) =
    omega (arith, length-limit_reads (suc n - length chunk) reads)

copied-limit_reads :
    (limit writes : ℕ) (reads : List Bytes) (d : Bytes) (w : Writer)
    → concat reads ≡ d
    → w.body ≡ []
    → (rest : Bytes) × (take limit d
        ≡ sent_bytes (copy_log_stream writes (limit_reads limit reads) w).body ++ rest)
      × (length reads ≤ writes → rest ≡ [])
unfolding sent_bytes
copied-limit_reads limit writes reads d w whole empty =
    let (rest, same, all) = copy_log_stream_prefix writes (limit_reads limit reads) w in
    let cut : concat (limit_reads limit reads) ≡ take limit d =
      rw (concat-limit_reads limit reads, whole) in
    let same' : sent_bytes w.body ++ concat (limit_reads limit reads)
        ≡ concat (limit_reads limit reads) =
      rw empty in
    (
      rest,
      sym cut ∙ sym same' ∙ same,
      λ enough. all (omega (arith, length-limit_reads limit reads)),
    )

head-body :
    (w : Writer)
    → w.body ≡ []
    → (write_header 200 (set_header "Content-Type" "text/plain; charset=utf-8" w)).body ≡ []
unfolding write_header set_header
head-body w empty = elim (Option-cases w.status) [
  | inl fresh' ↦ ground arith
  | inr (n, gone) ↦ ground arith
]

-- However the transport divides the stream and whenever the browser leaves, the bytes of a log
-- answer are a prefix of the first 50 MiB of the upstream body; they are all of it if the browser
-- stays for every read.
pub send_log_prefix :
    (split : Bytes → List Bytes) (writes : ℕ) (body : Body) (w : Writer)
    → concat (split body.bytes) ≡ body.bytes
    → w.body ≡ []
    → (rest : Bytes) × (take max_stream_bytes body.bytes
        ≡ sent_bytes (send_log split writes body w).body ++ rest)
      × (length (split body.bytes) ≤ writes → rest ≡ [])
unfolding send_log
send_log_prefix split writes body w whole empty =
    copied-limit_reads max_stream_bytes writes (split body.bytes) body.bytes
      (write_header 200 (set_header "Content-Type" "text/plain; charset=utf-8" w)) whole
      (head-body w empty)
