-- ===== src/Tests/Pages.antt =====
-- A booking on the public page, with an API that accepts it.
use booking_zoom_connect.Prelude.{ℕ, ◌≡◌, refl, true, none, some, List, codes}
use booking_zoom_connect.Graph.Client.{answered}
use booking_zoom_connect.WebForms.{Web, BookRouteInput}
use booking_zoom_connect.Notes.{trim_start, trim_end}
use booking_zoom_connect.WebApi.{
  Site, RequestResult, success, create_hold_server, server_request, app_url_or_throw,
  parse_with_schema, send_verify_email_server,
}
use booking_zoom_connect.BookRoute.{
  Desk, verification_sent, hold_request, verify_request, read_hold, book_outcome,
}
use booking_zoom_connect.BookRoute.Promise.{IsAccepted, IsAsked, book_outcome-IsAsked}

abbrev web : Web
web = record {
  to_lower = λ s. s;
  is_existing_ymd = λ s. true;
  sha256_hex = λ s. s;
  number_text = λ n. codes "0";
  safe_parse = λ input. some input;
}

abbrev site : Site
site = record {
  app_url = some (codes "https://api/");
  search_params = λ params. codes "q";
  fetch = λ url init. answered 201 (some (codes "b1"));
  random_uuid = none;
}

abbrev desk : Desk (List ℕ)
desk = record {
  web = web;
  site = site;
  parse_json = λ s. some s;
  hold_schema = λ s. success s;
  verify_schema = λ s. success tt;
  parse_payload = λ s. none;
  encode = λ s. s;
  fetch_error = codes "fetch failed";
}

abbrev input : BookRouteInput
input = record {
  tenant_slug = codes "acme";
  date = codes "2026-03-01";
  customer_name = codes "Ito";
  customer_email = codes "ito@example.com";
  booking_mode = codes "online";
  public_notes = codes "";
  start_at_utc = codes "2026-03-01T01:00:00Z";
  end_at_utc = codes "2026-03-01T01:30:00Z";
}

sent : book_outcome desk (codes "acme") 5 6 (some input) ≡ verification_sent (codes "2026-03-01")
unfolding book_outcome hold_request create_hold_server server_request app_url_or_throw trim_end
    trim_start read_hold parse_with_schema verify_request send_verify_email_server
sent = refl

book_outcome-IsAsked_example :
    (valid : BookRouteInput) × ((some input ≡ some valid)
      × ((res : RequestResult) × (IsAccepted (hold_request desk (codes "acme") valid 5) res
            × IsAsked desk (codes "acme") valid 6 (read_hold desk res))))
book_outcome-IsAsked_example =
    book_outcome-IsAsked desk (codes "acme") 5 6 (some input) (codes "2026-03-01") sent
