-- ===== src/Assembly.antt =====
-- assembly.py: the order in which a solved response is read.
use solverr.Base.{ℕ, ◌≡◌, Bool, not, ◌&&◌, Option, none, some, List, [], ◌∷◌, if◌then◌else◌, arith}
use solverr.Base.Text.{Text}
use solverr.Base.Value.{Value}
use solverr.Service.{SolveResult}

-- The request's options; `waits` is a `waitInSeconds` above 0.
pub record Options : Type 0 where
  pub only_cookies : Bool
  pub waits : Bool
  pub wants_screenshot : Bool

pub data Read : Type 0 where
  read_url read_user_agent read_token read_wait read_headers read_body read_screenshot : Read
  read_cookies : Read

-- How an engine reads, on a browser of type `S`. Each read may change the browser.
pub record Reads (S : Type 0) : Type 0 where
  pub url : S → S × Text
  pub user_agent : S → S × Text
  pub token : S → S × Option Text
  pub wait : S → S
  pub headers : S → S × Value
  pub body : S → S × Text × Option Text
  pub screenshot : S → S × List ℕ
  pub cookies : S → S × Value

module _ {S : Type 0} where
  -- The part of `assembly` that `returnOnlyCookies` leaves out.
  unfoldable pub read_page : Options → Reads S → S → S × Option Value × Option Text × Option Text
  read_page o r s =
      if o.only_cookies
      then (s, none, none, none)
      else (let (s1, headers) = r.headers s in
          let s2 = if o.waits then r.wait s1 else s1 in
          let (s3, text, kind) = r.body s2 in (s3, some headers, some text, kind))

  -- The screenshot, encoded by `base64`.
  unfoldable pub read_shot : (List ℕ → Text) → Options → Reads S → S → S × Option Text
  read_shot encode o r s =
      if o.wants_screenshot
      then (let (s1, raw) = r.screenshot s in (s1, some (encode raw)))
      else (s, none)

  -- `assembly`, driven by `run` or by `run_async`.
  unfoldable pub run : (List ℕ → Text) → Options → Text → Reads S → S → S × SolveResult
  unfolding read_page read_shot
  run encode o message r s =
      let (s1, url) = r.url s in
      let (s2, agent) = r.user_agent s1 in
      let (s3, token) = r.token s2 in
      let (s4, headers, text, kind) = read_page o r s3 in
      let (s5, shot) = read_shot encode o r s4 in
      let (s6, jar) = r.cookies s5 in
      (
        s6,
        record {
          url = url;
          status = 200;
          cookies = jar;
          user_agent = agent;
          message = message;
          headers = headers;
          response = text;
          content_type = kind;
          screenshot = shot;
          turnstile_token = token;
        },
      )

-- What can be read off a page, for an engine whose reads change nothing but by waiting.
pub record View (S : Type 0) : Type 0 where
  pub url_of : S → Text
  pub user_agent_of : S → Text
  pub token_of : S → Option Text
  pub waited : S → S
  pub headers_of : S → Value
  pub body_of : S → Text × Option Text
  pub screenshot_of : S → List ℕ
  pub cookies_of : S → Value

-- Such an engine, with every read put on a list, the latest first.
abbrev pub noting : {S : Type 0} → View S → Reads (S × List Read)
noting v = record {
  url = λ (s, l). ((s, read_url ∷ l), v.url_of s);
  user_agent = λ (s, l). ((s, read_user_agent ∷ l), v.user_agent_of s);
  token = λ (s, l). ((s, read_token ∷ l), v.token_of s);
  wait = λ (s, l). (v.waited s, read_wait ∷ l);
  headers = λ (s, l). ((s, read_headers ∷ l), v.headers_of s);
  body = λ (s, l). ((s, read_body ∷ l), (v.body_of s).0, (v.body_of s).1);
  screenshot = λ (s, l). ((s, read_screenshot ∷ l), v.screenshot_of s);
  cookies = λ (s, l). ((s, read_cookies ∷ l), v.cookies_of s);
}

abbrev pub when : Bool → Read → List Read → List Read
when b x l = if b then x ∷ l else l

-- The reads of a request, the latest first.
abbrev pub order : Options → List Read
order o =
    read_cookies
    ∷ when o.wants_screenshot read_screenshot (
        when (not o.only_cookies) read_body (
          when (not o.only_cookies && o.waits) read_wait (
            when (not o.only_cookies) read_headers (read_token ∷ read_user_agent ∷ read_url ∷ []))))

-- For an engine whose reads change nothing but by waiting, the reads happen in the order above, the
-- cookies last. The address and the headers are those of the page before the wait; the body, the
-- screenshot and the cookies are those of the page behind it.
pub run-order :
    {S : Type 0} (encode : List ℕ → Text) (o : Options) (message : Text) (v : View S) (s : S)
    → (let after = if not o.only_cookies && o.waits then v.waited s else s in
        let full = not o.only_cookies in
        run encode o message (noting v) (s, []) ≡ (
          (after, order o),
          record {
            url = v.url_of s;
            status = 200;
            cookies = v.cookies_of after;
            user_agent = v.user_agent_of s;
            message = message;
            headers = if full then some (v.headers_of s) else none;
            response = if full then some (v.body_of after).0 else none;
            content_type = if full then (v.body_of after).1 else none;
            screenshot = if o.wants_screenshot then some (encode (v.screenshot_of after)) else none;
            turnstile_token = v.token_of s;
          },
        ))
unfolding run
run-order encode o message v s = ground arith
