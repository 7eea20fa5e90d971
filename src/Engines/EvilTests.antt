-- ===== src/Engines/EvilTests.antt =====
-- The Chrome engine's solve at a concrete page.
use solverr.Base.{ℕ, zero, suc, ◌≡◌, refl, false, none, some, []}
use solverr.Base.Text.{Text, codes}
use solverr.Base.Value.{null}
use solverr.Assembly.{Reads}
use solverr.Engines.Evil.{
  Waited, gone, there, Wanted, Driver, waits, wait_all, click_again, clear_challenge, error_code,
  code_here, code_letters, drop_letters, next,
}
use solverr.Engines.{returned, raised}
use solverr.Pipeline.{Handlers}

-- The title of a page that is a challenge until the checkbox has been clicked.
abbrev title : ℕ → Text
title zero = codes "Just a moment..."
title (suc n) = codes "Home"

abbrev waited : ℕ → Waited
waited zero = there
waited (suc n) = gone

abbrev reads : Reads ℕ
reads = record {
  url = λ s. (s, codes "https://a.org/");
  user_agent = λ s. (s, codes "agent");
  token = λ s. (s, none);
  wait = λ s. s;
  headers = λ s. (s, null);
  body = λ s. (s, codes "page", none);
  screenshot = λ s. (s, []);
  cookies = λ s. (s, null);
}

abbrev handlers : Handlers Unit ℕ
handlers = record {
  on_step = λ step s. s;
  on_title = λ s. (s, title s);
  on_selector = λ selector s. (s, false);
}

abbrev driver : Driver Unit ℕ
driver = record {
  media_is_disabled = false;
  block = λ b s. s;
  handlers = handlers;
  failure = λ s. returned tt;
  location = λ s. (s, returned (some (codes "https://a.org/")));
  source = λ s. (s, returned []);
  resolve_token = λ tabs s. (s, returned none);
  await_token = λ s. (s, returned (some (codes "token")));
  find_html = λ s. (s, returned tt);
  wait_gone = λ w s. (s, waited s);
  click_verify = λ s. (suc s, returned tt);
  wait_stale = λ s. (s, raised []);
  reads = reads;
  encode = λ s. [];
}

abbrev wanted : Wanted Unit
wanted = record {
  is_post = false;
  disable_media = none;
  cookies = none;
  tabs = none;
  options = record { only_cookies = false; waits = false; wants_screenshot = false };
}

challenge-cleared : clear_challenge driver 2 0 ≡ (1, some (returned tt))
unfolding clear_challenge wait_all click_again next
challenge-cleared = refl

error_code-net :
    error_code (codes "<p>net::ERR_NAME_NOT_RESOLVED.</p>")
    ≡ some (codes "net::ERR_NAME_NOT_RESOLVED")
unfolding error_code code_here code_letters drop_letters
error_code-net = refl
