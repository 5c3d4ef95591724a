-- ===== src/Handler/Pages.antt =====
-- internal/handler/mainpagehandler, internal/handler/pinghandler and
-- internal/service/mainpageservice: the two pages that read the storage only. `execute` is the
-- main page's html/template on what `GetAllMetrics` gave.
use go_musthave_metrics.Base.{none, some}
use go_musthave_metrics.Base.Text.{Text, codes}
use go_musthave_metrics.Base.Results.{Result, ok, err, ◌>>=◌}
use go_musthave_metrics.Storage.Interface.{Storage}
use go_musthave_metrics.Handler.Http.{
  Response, header_only, status_ok, status_not_found, status_internal_server_error,
}

abbrev text_html : Text
text_html = codes "text/html; charset=utf-8"

module _ {F S : Type 0} (st : Storage F S) where
  -- `GetMainPage` of the service, then of the handler.
  pub main_page : (Text → Result Text) → S → Result Text × S
  main_page execute s = let (r, s') = st.get_all_metrics s in (r >>= execute, s')

  pub get_main_page : (Text → Result Text) → S → Response × S
  unfolding main_page
  get_main_page execute s =
      let (r, s') = main_page execute s in
      (
        elim r [
          | err e ↦ record {
            status = status_not_found;
            content_type = text_html;
            body = codes "Page not found";
          }
          | ok page ↦ record { status = status_ok; content_type = text_html; body = page }
        ],
        s',
      )

  pub get_ping_db : S → Response × S
  get_ping_db s =
      let (e, s') = st.ping s in
      (
        elim e [ some x ↦ header_only status_internal_server_error | none ↦ header_only status_ok ],
        s',
      )
