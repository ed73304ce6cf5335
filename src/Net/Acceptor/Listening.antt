-- ===== src/Net/Acceptor/Listening.antt =====
-- zysoft/net/acceptor.h: `listen` against the list of the calls that it is to make.
use zysoft.Prelude.{
  ◌≡◌, refl, List, [], ◌∷◌, ◌++◌, Option, none, some, Bool, true, false, if◌then◌else◌, Bool-cases,
  inl, inr, arith, ◌∙◌, ap, append-nil, append_assoc, sym,
}
use zysoft.Text.Split.{Text}
use zysoft.Net.Acceptor.{
  SocketCall, makes_endpoint, opens, sets_reuse_address, binds, listens, Acceptor, after_call,
  report, call, try_listen, listen,
}

-- What is to be called, in order.
abbrev pub wanted_calls : Bool → List SocketCall
wanted_calls reuse =
    makes_endpoint
    ∷ opens
    ∷ (if reuse then sets_reuse_address ∷ binds ∷ listens ∷ [] else binds ∷ listens ∷ [])

abbrev pub is_none : Option Text → Bool
is_none none = true
is_none (some m) = false

abbrev pub next_outcome :
    SocketCall → Option Text → Option Text × List SocketCall → Option Text × List SocketCall
next_outcome x none r = (r.0, x ∷ r.1)
next_outcome x (some m) r = (some m, [])

module _ (throws : SocketCall → Option Text) where
  -- The first that throws ends the list: what it throws, and the calls before it.
  abbrev pub until_throw : List SocketCall → Option Text × List SocketCall
  until_throw [] = (none, [])
  until_throw (x ∷ xs) = next_outcome x (throws x) (until_throw xs)

  run_calls : List SocketCall → Option Text × Acceptor → Option Text × Acceptor
  run_calls [] s = s
  run_calls (x ∷ xs) s = run_calls xs (call throws x s)

  calls-thrown :
      (xs : List SocketCall) (e : Text) (a : Acceptor) → run_calls xs (some e, a) ≡ (some e, a)
  unfolding run_calls call
  calls-thrown [] e a = refl
  calls-thrown (x ∷ xs) e a = calls-thrown xs e a

  outcome_call :
      (x : SocketCall) (xs : List SocketCall) (a : Acceptor) (r : Option Text × List SocketCall)
      → ((b : Acceptor) → run_calls xs (none, b) ≡ (r.0, record b { calls = b.calls ++ r.1 }))
      → (o : Option Text)
      → run_calls xs (after_call x o a)
        ≡ (let q = next_outcome x o r in (q.0, record a { calls = a.calls ++ q.1 }))
  unfolding after_call
  outcome_call x xs a r ih none =
      ih (record a { calls = a.calls ++ x ∷ [] })
      ∙ ap (λ l. (r.0, record a { calls = l })) (append_assoc a.calls (x ∷ []) r.1)
  outcome_call x xs a r ih (some m) =
      calls-thrown xs m a ∙ ap (λ l. (some m, record a { calls = l })) (sym (append-nil a.calls))

  calls_lem :
      (xs : List SocketCall) (a : Acceptor)
      → run_calls xs (none, a)
        ≡ (let (e, done) = until_throw xs in (e, record a { calls = a.calls ++ done }))
  unfolding run_calls call
  calls_lem [] a = ap (λ l. (none, record a { calls = l })) (sym (append-nil a.calls))
  calls_lem (x ∷ xs) a = outcome_call x xs a (until_throw xs) (calls_lem xs) (throws x)

  try_listen-calls :
      (a : Acceptor) → try_listen throws a ≡ run_calls (wanted_calls a.reuse_addr) (none, a)
  unfolding try_listen run_calls
  try_listen-calls a = elim (Bool-cases a.reuse_addr) [ inl r ↦ simp r refl | inr r ↦ simp r refl ]

  report_lem :
      (has_err_msg : Bool) (e : Option Text) (a : Acceptor)
      → let (ok, b, msg) = report has_err_msg e a in
        (ok ≡ is_none e) × (b ≡ a) × (msg ≡ (if has_err_msg then e else none))
  unfolding report
  report_lem has_err_msg none a = ground arith
  report_lem has_err_msg (some e) a = ground arith

  -- `listen` makes its calls in order up to the first that throws. It returns true exactly if none does, and else
  -- hands on what was thrown, if it is wanted; the address, the option and the connection stay as they were.
  pub listen_lem :
      (has_err_msg : Bool) (a : Acceptor)
      → let (ok, b, msg) = listen throws has_err_msg a in
        let (e, done) = until_throw (wanted_calls a.reuse_addr) in
        (ok ≡ is_none e)
        × (b ≡ record a { calls = a.calls ++ done })
        × (msg ≡ (if has_err_msg then e else none))
  unfolding listen
  listen_lem has_err_msg a =
      let p = try_listen-calls a ∙ calls_lem (wanted_calls a.reuse_addr) a in
      rw p (report_lem has_err_msg _ _)
