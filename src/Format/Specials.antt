-- ===== src/Format/Specials.antt =====
-- post_fmt3.y: \title, \tag, \published, \twitterimg and \twitterphoto, over a whole post.
use blahgd.Prelude.{
  ◌≡◌, Bool, true, false, ◌&&◌, refl, sym, ap, ◌∙◌, List, [], ◌∷◌, ◌++◌, Option, none, some,
  append_assoc, append-nil, Option-cases, inl, inr, Bytes, codes, arith, false≢true,
}
use blahgd.Commands.{StrApi, Urls, Parser, Tri, required, prohibited, allowed, find_cmd, check_arg}
use blahgd.Format.Text.{AllSeq, run-Reads, schar-text}
use blahgd.Commands.Process
use blahgd.Commands.Process.{process_cmd}
use blahgd.Format.{
  Thing, Paragraph, Post, Data, Seq, one, more, word, utf8char, wspace, char, dash, oquot, cquot,
  schar, newline, ellipsis, nbsp, amp, dollar, percent, cmd_opt, cmd_arg, cmd, symbol, math,
  verbatim, listing, special, first, next, paragraphs, empty, thing, paragraph, paragraphs_text,
  post, Special, title, published, tag, twitterimg, twitterphoto, verb, or_empty, special_cmd, M,
  bound, return, in_paragraph, command, of_done, ◌>>=◌,
}
use blahgd.Format.Meaning.{
  of_thing, of_paragraph, of_paragraphs, of_post, title_of, published_of, twitter_of, tags_back,
  last_or, is_some, accepts, takes, thing_text, has_text, IsMeant, IsMeantAll, IsMeantPost,
}

check_arg-accepts : (t : Tri) (o : Option Bytes) → check_arg t o ≡ accepts t (is_some o)
check_arg-accepts required none = refl
check_arg-accepts required (some s) = refl
check_arg-accepts prohibited none = refl
check_arg-accepts prohibited (some s) = refl
check_arg-accepts allowed o = refl

abbrev at : Parser → Data → Data
at q d = record d { parser = q }

module _ (api : StrApi) (urls : Urls) where
  abbrev gather : List (Special × Seq Bytes) → Data → Data
  gather [] d = d
  gather ((s, v) ∷ l) d = gather l (special_cmd api urls s (verb api urls v) d)

  gather-append :
      (l m : List (Special × Seq Bytes)) (d : Data) → gather (l ++ m) d ≡ gather m (gather l d)
  gather-append [] m d = refl
  gather-append ((s, v) ∷ l) m d = gather-append l m (special_cmd api urls s (verb api urls v) d)

  special_cmd-at :
      (s : Special) (v : Option Bytes) (q : Parser) (d : Data)
      → special_cmd api urls s v (at q d) ≡ at q (special_cmd api urls s v d)
  unfolding special_cmd
  special_cmd-at title v q d = refl
  special_cmd-at published v q d = refl
  special_cmd-at tag v q d = refl
  special_cmd-at twitterimg v q d = refl
  special_cmd-at twitterphoto v q d = refl

  gather-at :
      (l : List (Special × Seq Bytes)) (q : Parser) (d : Data)
      → gather l (at q d) ≡ at q (gather l d)
  gather-at [] q d = refl
  gather-at ((s, v) ∷ l) q d =
      rw (special_cmd-at s (verb api urls v) q d)
        (gather-at l q (special_cmd api urls s (verb api urls v) d))

  -- A run that has taken the special commands `l`, with a text if `b`.
  abbrev Leads : List (Special × Seq Bytes) → Bool → Data → Option (Option Bytes × Data) → Type 0
  Leads l b d r =
      (o : Option Bytes) × (q : Parser) × (r ≡ some (o, at q (gather l d))) × (is_some o ≡ b)

  -- One run after another.
  Leads-bound :
      (l m : List (Special × Seq Bytes)) (b c : Bool) (d : Data) (r : Option (Option Bytes × Data))
      (k : Option Bytes → M (Option Bytes))
      → Leads l b d r
      → ((o : Option Bytes) (q : Parser)
          → is_some o ≡ b
          → Leads m c (at q (gather l d)) (k o (at q (gather l d))))
      → Leads (l ++ m) c d (bound r k)
  Leads-bound l m b c d r k (o, q, e, h) f =
      let (o', q', e', h') = f o q h in
      (
        o',
        q',
        ap (λ x. bound x k) e
            ∙ e'
            ∙ ap (λ x. some (o', at q' x)) (gather-at m q (gather l d))
            ∙ ap (λ x. some (o', at q' x)) (sym (gather-append l m d)),
        h',
      )

  Leads-return : (d : Data) (s : Bytes) → Leads [] true d (some (some s, d))
  Leads-return d s = (some s, d.parser, refl, refl)

  process_cmd-output :
      (p : Parser) (c : Bytes) (txt opt : Option Bytes)
      → takes (find_cmd c) (is_some opt) (is_some txt) ≡ true
      → (q : Parser) × (s : Bytes) × (process_cmd api urls p c txt opt ≡ Process.output q s)
  unfolding process_cmd
  process_cmd-output p c txt opt h = elim (Option-cases (find_cmd c)) [
    | inl e ↦ (
      p,
      api.str_cat (some (codes "[INVAL CMD '") ∷ some c ∷ some (codes "']") ∷ []),
      rw (e, process_cmd) refl,
    )
    | inr (f, e) ↦
        let k : (check_arg f.square opt && check_arg f.curly txt) ≡ true =
          rw (check_arg-accepts f.square opt, check_arg-accepts f.curly txt)
            (ap (λ x. takes x (is_some opt) (is_some txt)) (sym e) ∙ h) in
        (
          (Process.run api urls p f.fxn txt opt).0,
          (Process.run api urls p f.fxn txt opt).1,
          rw (e, k, process_cmd) refl,
        )
  ]

  command-Leads :
      (c : Bytes) (txt opt : Option Bytes) (d : Data)
      → takes (find_cmd c) (is_some opt) (is_some txt) ≡ true
      → Leads [] true d (command api urls c txt opt d)
  command-Leads c txt opt d h =
      let (q, s, e) = process_cmd-output d.parser c txt opt h in (some s, q, ap (of_done d) e, refl)

  argument-Leads :
      (a : Paragraph) (c : Bytes) (o : Option Bytes) (b : Bool) (d : Data)
      → Leads (of_paragraph a) (has_text a) d (paragraph api urls a d)
      → takes (find_cmd c) b (has_text a) ≡ true
      → is_some o ≡ b
      → Leads (of_paragraph a) true d ((paragraph api urls a >>= λ y. command api urls c y o) d)
  argument-Leads a c o b d h k e = rw (sym (append-nil (of_paragraph a))) (
      Leads-bound (of_paragraph a) [] (has_text a) true d (paragraph api urls a d)
        (λ y. command api urls c y o) h
        (λ y q f. command-Leads c y o (at q (gather (of_paragraph a) d)) (rw (e, f) k)))

  joined-Leads :
      (f : Option Bytes → Bytes) (l : List (Special × Seq Bytes)) (b : Bool) (d : Data)
      (m : M (Option Bytes))
      → Leads l b d (m d)
      → Leads l true d ((m >>= λ x. return (some (f x))) d)
  joined-Leads f l b d m h = rw (sym (append-nil l)) (
      Leads-bound l [] b true d (m d) (λ x. return (some (f x))) h
        (λ x q e. Leads-return (at q (gather l d)) (f x)))

  mutual
    unfolding thing

    thing-Leads :
        (t : Thing) (d : Data)
        → IsMeant t
        → Leads (of_thing t) (thing_text t) d (thing api urls t d)
    thing-Leads (word s) d h = Leads-return d s
    thing-Leads (utf8char s) d h = Leads-return d s
    thing-Leads (wspace s) d h = Leads-return d s
    thing-Leads (char s) d h = Leads-return d s
    thing-Leads (dash s) d h =
        let (t, e, i) =
          run-Reads (codes "-" ∷ codes "&ndash;" ∷ codes "&mdash;" ∷ []) d s (ground arith) h in
        (some t, d.parser, e, refl)
    thing-Leads (oquot s) d h =
        let (t, e, i) = run-Reads (codes "&lsquo;" ∷ codes "&ldquo;" ∷ []) d s (ground arith) h in
        (some t, d.parser, e, refl)
    thing-Leads (cquot s) d h =
        let (t, e, i) = run-Reads (codes "&rsquo;" ∷ codes "&rdquo;" ∷ []) d s (ground arith) h in
        (some t, d.parser, e, refl)
    thing-Leads (schar s) d h =
        let (t, e, i) = schar-text d s h in (some t, d.parser, rw e refl, refl)
    thing-Leads newline d h = Leads-return d _
    thing-Leads ellipsis d h = Leads-return d _
    thing-Leads nbsp d h = Leads-return d _
    thing-Leads amp d h = Leads-return d _
    thing-Leads dollar d h = Leads-return d _
    thing-Leads percent d h = Leads-return d _
    thing-Leads (symbol s) d h = Leads-return d _
    thing-Leads (math l) d h = Leads-return d _
    thing-Leads (verbatim l) d h = Leads-return d _
    thing-Leads (listing l) d h = Leads-return d _
    thing-Leads (special s l) d h = (
      none,
      d.parser,
      ap (λ x. some (none, x)) (special_cmd-at s (verb api urls l) d.parser d),
      refl,
    )
    thing-Leads (cmd c) d h = command-Leads c none none d h
    thing-Leads (cmd_arg c a) d h =
        argument-Leads a c none false d (paragraph-Leads a d h.0) h.1 refl
    thing-Leads (cmd_opt c o a) d (h, k, j) =
        Leads-bound (of_paragraph o) (of_paragraph a) (has_text o) true d (paragraph api urls o d)
          (λ x. paragraph api urls a >>= λ y. command api urls c y x) (paragraph-Leads o d h)
          (λ x q e.
            let d' = at q (gather (of_paragraph o) d) in
            argument-Leads a c x (has_text o) d' (paragraph-Leads a d' k) j e)

    paragraph-Leads :
        (p : Paragraph) (d : Data)
        → IsMeantAll p
        → Leads (of_paragraph p) (has_text p) d (paragraph api urls p d)
    paragraph-Leads (first t) d h = thing-Leads t d h
    paragraph-Leads (next p t) d h =
        Leads-bound (of_paragraph p) (of_thing t) (has_text p) true d (paragraph api urls p d)
          (λ x. thing api urls t >>= λ y. return (some (api.str_cat (x ∷ y ∷ []))))
          (paragraph-Leads p d h.0)
          (λ o q e.
            let d' = at q (gather (of_paragraph p) d) in
            joined-Leads (λ y. api.str_cat (o ∷ y ∷ [])) (of_thing t) (thing_text t) d'
              (thing api urls t) (thing-Leads t d' h.1))

  paragraphs-Leads :
      (l : Seq Paragraph) (d : Data)
      → AllSeq IsMeantAll l
      → Leads (of_paragraphs l) true d (paragraphs_text api urls l d)
  unfolding paragraphs_text
  paragraphs-Leads (one p) d h =
      joined-Leads (λ x. api.str_cat (in_paragraph x)) (of_paragraph p) (has_text p) d
        (paragraph api urls p) (paragraph-Leads p d h)
  paragraphs-Leads (more l p) d h =
      Leads-bound (of_paragraphs l) (of_paragraph p) true true d (paragraphs_text api urls l d)
        (λ x. paragraph api urls p >>= λ y. return (some (api.str_cat (x ∷ in_paragraph y))))
        (paragraphs-Leads l d h.0)
        (λ o q e.
          let d' = at q (gather (of_paragraphs l) d) in
          joined-Leads (λ y. api.str_cat (o ∷ in_paragraph y)) (of_paragraph p) (has_text p) d'
            (paragraph api urls p) (paragraph-Leads p d' h.1))

  post-Leads : (p : Post) (d : Data) → IsMeantPost p → Leads (of_post p) true d (post api urls p d)
  unfolding post
  post-Leads (paragraphs l) d h = paragraphs-Leads l d h
  post-Leads empty d h = Leads-return d []

  texted :
      (l : List (Special × Seq Bytes)) (d : Data) {r : Option (Option Bytes × Data)}
      → Leads l true d r
      → (out : Bytes) × (q : Parser) × (r ≡ some (some out, at q (gather l d)))
  texted l d (none, q, e, h) = absurd (false≢true h)
  texted l d (some s, q, e, h) = (s, q, e)

  title_lem :
      (l : List (Special × Seq Bytes)) (d : Data)
      → (gather l d).sc_title ≡ last_or d.sc_title (title_of api urls) l
  unfolding special_cmd
  title_lem [] d = refl
  title_lem ((title, v) ∷ l) d = title_lem l (special_cmd api urls title (verb api urls v) d)
  title_lem ((published, v) ∷ l) d =
      title_lem l (special_cmd api urls published (verb api urls v) d)
  title_lem ((tag, v) ∷ l) d = title_lem l (special_cmd api urls tag (verb api urls v) d)
  title_lem ((twitterimg, v) ∷ l) d =
      title_lem l (special_cmd api urls twitterimg (verb api urls v) d)
  title_lem ((twitterphoto, v) ∷ l) d =
      title_lem l (special_cmd api urls twitterphoto (verb api urls v) d)

  published_lem :
      (l : List (Special × Seq Bytes)) (d : Data)
      → (gather l d).sc_pub ≡ last_or d.sc_pub (published_of api urls) l
  unfolding special_cmd
  published_lem [] d = refl
  published_lem ((title, v) ∷ l) d =
      published_lem l (special_cmd api urls title (verb api urls v) d)
  published_lem ((published, v) ∷ l) d =
      published_lem l (special_cmd api urls published (verb api urls v) d)
  published_lem ((tag, v) ∷ l) d = published_lem l (special_cmd api urls tag (verb api urls v) d)
  published_lem ((twitterimg, v) ∷ l) d =
      published_lem l (special_cmd api urls twitterimg (verb api urls v) d)
  published_lem ((twitterphoto, v) ∷ l) d =
      published_lem l (special_cmd api urls twitterphoto (verb api urls v) d)

  twitter_lem :
      (l : List (Special × Seq Bytes)) (d : Data)
      → (gather l d).sc_twitter_img ≡ last_or d.sc_twitter_img (twitter_of api urls) l
  unfolding special_cmd
  twitter_lem [] d = refl
  twitter_lem ((title, v) ∷ l) d = twitter_lem l (special_cmd api urls title (verb api urls v) d)
  twitter_lem ((published, v) ∷ l) d =
      twitter_lem l (special_cmd api urls published (verb api urls v) d)
  twitter_lem ((tag, v) ∷ l) d = twitter_lem l (special_cmd api urls tag (verb api urls v) d)
  twitter_lem ((twitterimg, v) ∷ l) d =
      twitter_lem l (special_cmd api urls twitterimg (verb api urls v) d)
  twitter_lem ((twitterphoto, v) ∷ l) d =
      twitter_lem l (special_cmd api urls twitterphoto (verb api urls v) d)

  tags_lem :
      (l : List (Special × Seq Bytes)) (d : Data)
      → (gather l d).sc_tags ≡ tags_back api urls l ++ d.sc_tags
  unfolding special_cmd
  tags_lem [] d = refl
  tags_lem ((title, v) ∷ l) d = tags_lem l (special_cmd api urls title (verb api urls v) d)
  tags_lem ((published, v) ∷ l) d = tags_lem l (special_cmd api urls published (verb api urls v) d)
  tags_lem ((tag, v) ∷ l) d =
      tags_lem l (special_cmd api urls tag (verb api urls v) d)
      ∙ sym (append_assoc (tags_back api urls l) (or_empty (verb api urls v) ∷ []) d.sc_tags)
  tags_lem ((twitterimg, v) ∷ l) d =
      tags_lem l (special_cmd api urls twitterimg (verb api urls v) d)
  tags_lem ((twitterphoto, v) ∷ l) d =
      tags_lem l (special_cmd api urls twitterphoto (verb api urls v) d)

  -- A post whose tokens' texts are as the scanner has them and whose commands each have what the table
  -- asks for always becomes a text. Its title, its date of publication and its Twitter image are then
  -- those of the last command that sets them, wherever it stands, also inside an argument, and else
  -- what they were; its tags are those of all the \tag commands, the last one first.
  pub post-specials :
      (p : Post) (d : Data)
      → IsMeantPost p
      → (out : Bytes) × (d' : Data) × (post api urls p d ≡ some (some out, d'))
        × (d'.sc_title ≡ last_or d.sc_title (title_of api urls) (of_post p))
        × (d'.sc_pub ≡ last_or d.sc_pub (published_of api urls) (of_post p))
        × (d'.sc_twitter_img ≡ last_or d.sc_twitter_img (twitter_of api urls) (of_post p))
        × (d'.sc_tags ≡ tags_back api urls (of_post p) ++ d.sc_tags)
  post-specials p d h =
      let l = of_post p in
      let (out, q, e) = texted l d (post-Leads p d h) in
      (out, at q (gather l d), e, title_lem l d, published_lem l d, twitter_lem l d, tags_lem l d)
