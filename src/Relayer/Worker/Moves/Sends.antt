-- ===== src/Relayer/Worker/Moves/Sends.antt =====
-- What a broadcast may do to a job in flight (backend/app/relayer/worker.py: `_rebroadcast`, `_bump`, and
-- the transactions that are kept alive).
use over_under.Prelude.{
  ℕ, ◌+◌, ◌≡◌, ◌⊎◌, inl, inr, refl, sym, ap, Bool, true, ◌&&◌, Option, none, some, List, [], ◌∷◌,
  ◌++◌, arith, any, Bool-cases, ltb, leb, ◌==◌,
}
use over_under.Prelude.Table.{find}
use over_under.Relayer.Gas.{FeeQuote, bump_fees}
use over_under.Db.{Order, RelayJob, JobStatus, job_key}
use over_under.Relayer.Queue.{in_flight}
use over_under.Relayer.Worker.Retire.{by_hash}
use over_under.Relayer.Worker.{
  Sent, accepted, nonce_low, known, underpriced, insufficient_funds, revert, transient, Block,
  Answer, ok, rpc_error, Tx, Context, State, settings_of, or_zero, has_fill_log,
}
use over_under.Relayer.Worker.Settle.{
  rebroadcast, after_rebroadcast, rebroadcast_failed, broadcast, with_broadcast,
}
use over_under.Relayer.Worker.Reconcile.{
  after_bump, written_ahead, send_bump, bump_quoted, bump_at, bump_parts, resigned,
  after_keep_alive, noted_stuck, is_some, store_quote, stored_quote, gas_of, keep_alive,
}
use over_under.Relayer.Worker.Moves.{Post, Rebuilt, Due, Replacement}
use over_under.Relayer.Worker.Moves.Receipts.{put-row, After, Keep, consumed_resync-Post}

rebroadcast_failed_flies :
    (c : Context) (st : State)
    → in_flight st.job.status ≡ true
    → in_flight (rebroadcast_failed c st).job.status ≡ true
unfolding rebroadcast_failed
rebroadcast_failed_flies c st fly = ground arith

module _ (P : JobStatus → Type 0) (c : Context) (st : State) (hashes : List ℕ) (row : RelayJob)
    (there : find job_key st.job.id st.db.jobs ≡ some row) (fly : in_flight st.job.status ≡ true)
    (keep : Keep P) (after : After P c st.job hashes) where
  after_rebroadcast-Post : (s : Sent) → Post P (after_rebroadcast c st hashes s)
  unfolding after_rebroadcast Post
  after_rebroadcast-Post accepted = keep JobStatus.sent refl
  after_rebroadcast-Post known = keep JobStatus.sent refl
  after_rebroadcast-Post underpriced = keep JobStatus.sent refl
  after_rebroadcast-Post nonce_low = consumed_resync-Post P c st hashes row there fly keep after
  after_rebroadcast-Post insufficient_funds = keep st.job.status fly
  after_rebroadcast-Post revert =
      keep (rebroadcast_failed c st).job.status (rebroadcast_failed_flies c st fly)
  after_rebroadcast-Post transient =
      keep (rebroadcast_failed c st).job.status (rebroadcast_failed_flies c st fly)

  after_bump-Post : (s : Sent) → Post P (after_bump c st hashes s)
  unfolding after_bump Post
  after_bump-Post accepted = keep st.job.status fly
  after_bump-Post known = keep st.job.status fly
  after_bump-Post underpriced = keep st.job.status fly
  after_bump-Post nonce_low = consumed_resync-Post P c st hashes row there fly keep after
  after_bump-Post insufficient_funds = keep st.job.status fly
  after_bump-Post revert = keep st.job.status fly
  after_bump-Post transient = keep st.job.status fly

  after_keep_alive-Post : (s : Sent) → Post P (after_keep_alive c st hashes s)
  unfolding after_keep_alive Post
  after_keep_alive-Post accepted = keep st.job.status fly
  after_keep_alive-Post known = keep st.job.status fly
  after_keep_alive-Post underpriced = keep st.job.status fly
  after_keep_alive-Post nonce_low = consumed_resync-Post P c st hashes row there fly keep after
  after_keep_alive-Post insufficient_funds = keep st.job.status fly
  after_keep_alive-Post revert = keep st.job.status fly
  after_keep_alive-Post transient = keep st.job.status fly

module _ (P : JobStatus → Type 0) (c : Context) (st : State) (hashes : List ℕ) (row : RelayJob)
    (there : find job_key st.job.id st.db.jobs ≡ some row) (fly : in_flight st.job.status ≡ true)
    (keep : Keep P) (after : After P c st.job hashes) where
  pub rebroadcast-Post : Post P (rebroadcast c st hashes)
  unfolding rebroadcast Post
  rebroadcast-Post = elim (Bool-cases (ltb c.now st.job.next_attempt_at)) [
    | inl early ↦ rw early (keep st.job.status fly)
    | inr due ↦ rw due (
        after_rebroadcast-Post P c (with_broadcast st.job.raw_tx st) hashes row there fly keep after
          (broadcast c st.job.raw_tx))
  ]

  pub keep_alive-Post : Post P (keep_alive c st hashes)
  unfolding keep_alive Post has_fill_log
  keep_alive-Post =
      elim (Bool-cases (
        is_some st.job.raw_tx
        && (leb (or_zero st.job.sent_at + (settings_of c).relayer_resubmit_after_seconds) c.now
            && leb st.job.next_attempt_at c.now))) [
              | inl due ↦ rw due (
                  after_keep_alive-Post P c
                    (with_broadcast st.job.raw_tx (record (noted_stuck st) {
                      job = record (noted_stuck st).job {
                        next_attempt_at = c.now + (settings_of c).relayer_resubmit_after_seconds;
                      };
                    }))
                    hashes row there fly keep after (broadcast c st.job.raw_tx))
              | inr rest ↦ rw rest (keep st.job.status fly)
            ]

any-append :
    (p : ℕ → Bool) (xs ys : List ℕ)
    → any p (xs ++ ys) ≡ true
    → (any p xs ≡ true) ⊎ (any p ys ≡ true)
any-append p [] ys e = inr e
any-append p (x ∷ xs) ys e = elim (Bool-cases (p x)) [
  | inl hit ↦ inl (ground arith)
  | inr miss ↦ ground (arith, any-append p xs ys)
]

module _ (P : JobStatus → Type 0) (c : Context) (st : State) (hashes : List ℕ) (row : RelayJob)
    (there : find job_key st.job.id st.db.jobs ≡ some row) (fly : in_flight st.job.status ≡ true)
    (keep : Keep P) (after : After P c st.job hashes) (due : Due c st.job)
    (signed : (tx : Tx) → Replacement c st tx → After P c st.job ((c.sign tx).1 ∷ [])) where
  -- A replacement adds its hash, and nothing that a receipt is tested with.
  After-more : (tx : Tx) → Replacement c st tx → After P c st.job (hashes ++ (c.sign tx).1 ∷ [])
  After-more tx ours chain r h b which got own test =
      elim (any-append (λ k. k == h) hashes ((c.sign tx).1 ∷ []) own) [
        | inl old ↦ after chain r h b which got old test
        | inr new ↦ signed tx ours chain r h b which got new test
      ]

  bump_quoted-Post :
      (tx : Tx) (block : Block) (q : Option FeeQuote)
      → Rebuilt c st tx
      → c.chain.latest_block ≡ ok block
      → bump_fees (stored_quote st.job) (settings_of c) block.base_fee ≡ q
      → Post P (bump_quoted c st tx hashes q)
  unfolding bump_quoted send_bump Post store_quote has_fill_log
  bump_quoted-Post tx block none b e f = keep st.job.status fly
  bump_quoted-Post tx block (some q) b e f =
      let tx' : Tx = record tx { quote = q } in
      let st' : State = record st { job = resigned c st.job (c.sign tx').0 (c.sign tx').1 q } in
      let ours : Replacement c st tx' = record {
        rebuilt = requoted tx q b;
        due = due;
        block = block;
        latest = e;
        outbids = f;
      } in
      after_bump-Post P c (written_ahead st' (c.sign tx').0) (hashes ++ (c.sign tx').1 ∷ []) st'.job
        (put-row st' row there) fly keep (After-more tx' ours) (c.chain.send_raw (c.sign tx').0)
    where
      requoted : (tx : Tx) (q : FeeQuote) → Rebuilt c st tx → Rebuilt c st (record tx { quote = q })
      requoted tx q b = record {
        on_chain = b.on_chain;
        own_nonce = b.own_nonce;
        to_exchange = b.to_exchange;
        own_gas = b.own_gas;
        own_taker = b.own_taker;
        own_maker = b.own_maker;
        own_fill = b.own_fill;
      }

  bump_at-Post :
      (tx : Tx) (b : Answer Block)
      → Rebuilt c st tx
      → tx.quote ≡ stored_quote st.job
      → c.chain.latest_block ≡ b
      → Post P (bump_at c st tx hashes b)
  unfolding bump_at Post
  bump_at-Post tx rpc_error b q e = keep st.job.status fly
  bump_at-Post tx (ok block) b q e =
      bump_quoted-Post tx block (bump_fees tx.quote (settings_of c) block.base_fee) b e
        (ap (λ k. bump_fees k (settings_of c) block.base_fee) (sym q))

  gas_of-some : (limit : Option ℕ) (gas : ℕ) → gas_of limit ≡ some gas → limit ≡ some gas
  gas_of-some none gas e = absurd (ground (arith, e))
  gas_of-some (some g) gas e = ground (arith, e)

  pub bump_parts-Post :
      (taker maker : Option Order) (nonce gas : Option ℕ)
      → by_hash st.job.taker_hash st.db.orders ≡ taker
      → by_hash st.job.maker_hash st.db.orders ≡ maker
      → st.job.nonce ≡ nonce
      → gas_of st.job.gas_limit ≡ gas
      → Post P (bump_parts c st hashes taker maker nonce gas)
  unfolding bump_parts Post
  bump_parts-Post (some taker) (some maker) (some nonce) (some gas) t m n g =
      let own : Rebuilt c st (record {
        chain_id = c.chain_id;
        nonce = nonce;
        to = c.exchange;
        gas = gas;
        quote = stored_quote st.job;
        taker = taker;
        maker = maker;
        fill = st.job.fill_amount;
      }) =
        record {
          on_chain = refl;
          own_nonce = n;
          to_exchange = refl;
          own_gas = gas_of-some st.job.gas_limit gas g;
          own_taker = t;
          own_maker = m;
          own_fill = refl;
        } in
      bump_at-Post _ c.chain.latest_block own refl refl
  bump_parts-Post none maker used gas t m n g = keep st.job.status fly
  bump_parts-Post (some taker) none used gas t m n g = keep st.job.status fly
  bump_parts-Post (some taker) (some maker) none gas t m n g = keep st.job.status fly
  bump_parts-Post (some taker) (some maker) (some nonce) none t m n g = keep st.job.status fly
