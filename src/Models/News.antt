-- ===== src/Models/News.antt =====
-- The answers of the news server in platform_sdk/models.py, as JSON objects that Pydantic writes and
-- reads.
use ai_platform_sdk.Prelude.{String, Option, none, some, List, []}
use ai_platform_sdk.Json
use ai_platform_sdk.Json.{Json, str, obj, Fields, end, field}
use ai_platform_sdk.Config.Models.{ℤ, pos}
use ai_platform_sdk.Models.{
  Lax, ◌>>=◌, of_int, of_option, as_dict, required, defaulted, optional, as_int, as_str,
}
use ai_platform_sdk.Models.Reading.{Floats, write_list, read_list}

-- An article.
pub record NewsArticle (Float : Type 0) : Type 0 where
  pub title : String
  pub url : Option String
  pub published_date : Option String
  pub source : Option String
  pub snippet : Option String
  pub relevance_score : Option Float

-- What search_company_news answers.
pub record NewsSummaryData (Float : Type 0) : Type 0 where
  pub schema_version : ℤ
  pub company : Option String
  pub articles : List (NewsArticle Float)
  pub aggregate_signal : Option String
  pub signal_rationale : Option String

module _ (floats : Floats) where
  unfoldable pub news_article_fields : NewsArticle floats.Float → Fields
  news_article_fields x = field "title" (str x.title) (
      field "url" (of_option str x.url) (
        field "published_date" (of_option str x.published_date) (
          field "source" (of_option str x.source) (
            field "snippet" (of_option str x.snippet)
              (field "relevance_score" (of_option floats.write x.relevance_score) end)))))

  unfoldable pub news_summary_fields : NewsSummaryData floats.Float → Fields
  unfolding news_article_fields write_list
  news_summary_fields x = field "schema_version" (of_int x.schema_version) (
      field "company" (of_option str x.company) (
        field "articles" (write_list (λ x. obj (news_article_fields x)) x.articles) (
          field "aggregate_signal" (of_option str x.aggregate_signal)
            (field "signal_rationale" (of_option str x.signal_rationale) end))))

module _ (lax : Lax) (floats : Floats) where
  unfoldable pub news_article_of : Json → Option (NewsArticle floats.Float)
  unfolding Json.get
  news_article_of v = do
    d ← as_dict v
    title ← required (as_str lax) (Json.get "title" d)
    url ← defaulted none (optional (as_str lax)) (Json.get "url" d)
    published_date ← defaulted none (optional (as_str lax)) (Json.get "published_date" d)
    source ← defaulted none (optional (as_str lax)) (Json.get "source" d)
    snippet ← defaulted none (optional (as_str lax)) (Json.get "snippet" d)
    relevance_score ← defaulted none (optional floats.read) (Json.get "relevance_score" d)
    some (record {
      title = title;
      url = url;
      published_date = published_date;
      source = source;
      snippet = snippet;
      relevance_score = relevance_score;
    })

  unfoldable pub news_summary_of : Json → Option (NewsSummaryData floats.Float)
  unfolding Json.get news_article_of read_list
  news_summary_of v = do
    d ← as_dict v
    schema_version ← defaulted (pos 1) (as_int lax) (Json.get "schema_version" d)
    company ← defaulted none (optional (as_str lax)) (Json.get "company" d)
    articles ← defaulted [] (read_list news_article_of) (Json.get "articles" d)
    aggregate_signal ← defaulted none (optional (as_str lax)) (Json.get "aggregate_signal" d)
    signal_rationale ← defaulted none (optional (as_str lax)) (Json.get "signal_rationale" d)
    some (record {
      schema_version = schema_version;
      company = company;
      articles = articles;
      aggregate_signal = aggregate_signal;
      signal_rationale = signal_rationale;
    })
