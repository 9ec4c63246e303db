-- ===== src/Commands/Nesting.antt =====
-- Environments: \begin and \end undo one another.
use blahgd.Prelude.{
  ℕ, ◌^◌, ◌<◌, ◌≡◌, ◌≢◌, refl, ap, Bool, arith, ◌==◌, Bytes, codes, length, take, drop, bytes_eq,
  ◌-◌, Bool-cases, inl, inr,
}
use blahgd.Commands.{StrApi, Urls, Parser, incr, decr}
use blahgd.Commands.Process.{
  Environ, texttt, enumerate, itemize, description, quote, tabular, invalid, environ_of, begin_of,
  end_of, process_begin, process_end,
}

-- The counters are 32-bit values.
pub record IsWord (st : Parser) : Type 0 where
  pub tables : st.table_nesting < 2 ^ 32
  pub texttts : st.texttt_nesting < 2 ^ 32

decr-incr : (n : ℕ) → n < 2 ^ 32 → decr (incr n) ≡ n
decr-incr n h = omega arith

abbrev pub closes_paragraph : Bytes → Bool
closes_paragraph s = bytes_eq (take 4 s) (codes "</p>")

abbrev pub opens_paragraph : Bytes → Bool
opens_paragraph s = bytes_eq (drop (length s - 3) s) (codes "<p>")

module _ (api : StrApi) (urls : Urls) (st : Parser) where
  restored :
      (txt : Bytes) (e : Environ)
      → IsWord st
      → (end_of api urls (begin_of api urls st txt e).0 txt e).0 ≡ st
  restored txt texttt h =
      ap (λ n. record st { texttt_nesting = n }) (decr-incr st.texttt_nesting h.texttts)
  restored txt enumerate h = refl
  restored txt itemize h = refl
  restored txt description h = refl
  restored txt quote h = refl
  restored txt tabular h =
      ap (λ n. record st { table_nesting = n }) (decr-incr st.table_nesting h.tables)
  restored txt invalid h = refl

  -- After \begin and \end of one environment, whatever its name, the counters of the parser are
  -- what they were, where they are 32-bit values.
  pub process_end-process_begin :
      (txt : Bytes)
      → IsWord st
      → (process_end api urls (process_begin api urls st txt).0 txt).0 ≡ st
  unfolding process_begin process_end
  process_end-process_begin txt h = restored txt (environ_of txt) h

  balanced :
      (txt : Bytes) (e : Environ)
      → IsWord st
      → e ≢ invalid
      → closes_paragraph (begin_of api urls st txt e).1
        ≡ opens_paragraph (end_of api urls (begin_of api urls st txt e).0 txt e).1
  unfolding bytes_eq
  balanced txt texttt h k = refl
  balanced txt enumerate h k = refl
  balanced txt itemize h k = refl
  balanced txt description h k = refl
  balanced txt quote h k = refl
  balanced txt tabular h k =
      rw (decr-incr st.table_nesting h.tables)
        (elim (Bool-cases (st.table_nesting == 0)) [ inl e ↦ rw e refl | inr e ↦ rw e refl ])
  balanced txt invalid h k = absurd (k refl)

  -- The output of \begin closes the paragraph around an environment that the parser knows exactly
  -- when the output of the \end that follows it opens a paragraph again, nested tables included.
  pub process_begin_balanced :
      (txt : Bytes)
      → IsWord st
      → environ_of txt ≢ invalid
      → closes_paragraph (process_begin api urls st txt).1
        ≡ opens_paragraph (process_end api urls (process_begin api urls st txt).0 txt).1
  unfolding process_begin process_end
  process_begin_balanced txt h k = balanced txt (environ_of txt) h k
