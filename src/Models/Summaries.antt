-- ===== src/Models/Summaries.antt =====
-- What is written of the answers of the servers in platform_sdk/models.py is read back.
use ai_platform_sdk.Prelude.{◌≡◌, refl, some}
use ai_platform_sdk.Json
use ai_platform_sdk.Json.{Json, str, obj, Fields}
use ai_platform_sdk.Models.{Lax, of_int, as_dict, as_int}
use ai_platform_sdk.Models.Reading.{
  Floats, Exact, read_list-write_list, read_dict-write_dict, as_int-of_int, optional-str,
  optional-float, optional-dict,
}
use ai_platform_sdk.Models.Crm.{
  ContactSummary, contact_summary_fields, contact_summary_of, OpportunitySummary,
  opportunity_summary_fields, opportunity_summary_of, ActivitySummary, activity_summary_fields,
  activity_summary_of, SalesforceSummaryData, salesforce_summary_fields, salesforce_summary_of,
}
use ai_platform_sdk.Models.Payments.{
  PaymentVolume, payment_volume_fields, payment_volume_of, CounterpartySummary,
  counterparty_summary_fields, counterparty_summary_of, PaymentSummaryData, payment_summary_fields,
  payment_summary_of,
}
use ai_platform_sdk.Models.News.{
  NewsArticle, news_article_fields, news_article_of, NewsSummaryData, news_summary_fields,
  news_summary_of,
}

module _ (lax : Lax) (floats : Floats) (exact : Exact floats) where
  -- A contact is read back as it was written.
  pub contact_summary_of-contact_summary_fields :
      (x : ContactSummary)
      → contact_summary_of lax floats (obj (contact_summary_fields floats x)) ≡ some x
  unfolding contact_summary_of contact_summary_fields Json.get
  contact_summary_of-contact_summary_fields x =
      rw
        (
          optional-str lax x.title,
          optional-str lax x.email,
          optional-str lax x.phone,
          optional-str lax x.role,
        )
        refl

  -- An opportunity is read back as it was written.
  pub opportunity_summary_of-opportunity_summary_fields :
      (x : OpportunitySummary floats.Float)
      → opportunity_summary_of lax floats (obj (opportunity_summary_fields floats x)) ≡ some x
  unfolding opportunity_summary_of opportunity_summary_fields Json.get
  opportunity_summary_of-opportunity_summary_fields x =
      rw
        (
          optional-str lax x.stage,
          optional-float floats exact x.amount,
          optional-str lax x.close_date,
        )
        refl

  -- An interaction is read back as it was written.
  pub activity_summary_of-activity_summary_fields :
      (x : ActivitySummary)
      → activity_summary_of lax floats (obj (activity_summary_fields floats x)) ≡ some x
  unfolding activity_summary_of activity_summary_fields Json.get
  activity_summary_of-activity_summary_fields x =
      rw (optional-str lax x.subject, optional-str lax x.date, optional-str lax x.description) refl

  -- The answer of the Salesforce server, with its contacts, opportunities and interactions, is read back as it was written.
  pub salesforce_summary_of-salesforce_summary_fields :
      (x : SalesforceSummaryData floats.Float)
      → salesforce_summary_of lax floats (obj (salesforce_summary_fields floats x)) ≡ some x
  unfolding salesforce_summary_of salesforce_summary_fields Json.get
  salesforce_summary_of-salesforce_summary_fields x =
      rw
        (
          as_int-of_int lax x.schema_version,
          optional-str lax x.account_id,
          optional-str lax x.account_name,
          optional-str lax x.industry,
          optional-float floats exact x.annual_revenue,
          read_list-write_list (λ x. obj (contact_summary_fields floats x))
              (contact_summary_of lax floats) contact_summary_of-contact_summary_fields x.contacts,
          read_list-write_list (λ x. obj (opportunity_summary_fields floats x))
              (opportunity_summary_of lax floats) opportunity_summary_of-opportunity_summary_fields
              x.opportunities,
          read_list-write_list (λ x. obj (activity_summary_fields floats x))
              (activity_summary_of lax floats) activity_summary_of-activity_summary_fields
              x.recent_activities,
          read_list-write_list obj as_dict (λ x. refl) x.tasks,
          read_list-write_list obj as_dict (λ x. refl) x.cases,
        )
        refl

  -- A volume of payments is read back as it was written.
  pub payment_volume_of-payment_volume_fields :
      (x : PaymentVolume floats.Float)
      → payment_volume_of lax floats (obj (payment_volume_fields floats x)) ≡ some x
  unfolding payment_volume_of payment_volume_fields Json.get
  payment_volume_of-payment_volume_fields x =
      rw (as_int-of_int lax x.transaction_count, exact.reads x.total_amount) refl

  -- A counterparty is read back as it was written.
  pub counterparty_summary_of-counterparty_summary_fields :
      (x : CounterpartySummary floats.Float)
      → counterparty_summary_of lax floats (obj (counterparty_summary_fields floats x)) ≡ some x
  unfolding counterparty_summary_of counterparty_summary_fields Json.get
  counterparty_summary_of-counterparty_summary_fields x =
      rw (as_int-of_int lax x.transaction_count, exact.reads x.total_amount) refl

  -- The answer of the payments server, with its volumes, counterparties and statuses, is read back as it was written.
  pub payment_summary_of-payment_summary_fields :
      (x : PaymentSummaryData floats.Float)
      → payment_summary_of lax floats (obj (payment_summary_fields floats x)) ≡ some x
  unfolding payment_summary_of payment_summary_fields Json.get
  payment_summary_of-payment_summary_fields x =
      rw
        (
          as_int-of_int lax x.schema_version,
          optional-str lax x.client_name,
          as_int-of_int lax x.period_days,
          read_list-write_list (λ x. obj (payment_volume_fields floats x))
              (payment_volume_of lax floats) payment_volume_of-payment_volume_fields x.volumes,
          read_dict-write_dict of_int (as_int lax) (as_int-of_int lax) x.status_breakdown,
          read_list-write_list (λ x. obj (counterparty_summary_fields floats x))
              (counterparty_summary_of lax floats)
              counterparty_summary_of-counterparty_summary_fields x.top_counterparties,
          read_list-write_list obj as_dict (λ x. refl) x.bank_diversity,
          optional-dict x.trend,
          optional-dict x.compliance_profile,
        )
        refl

  -- An article is read back as it was written.
  pub news_article_of-news_article_fields :
      (x : NewsArticle floats.Float)
      → news_article_of lax floats (obj (news_article_fields floats x)) ≡ some x
  unfolding news_article_of news_article_fields Json.get
  news_article_of-news_article_fields x =
      rw
        (
          optional-str lax x.url,
          optional-str lax x.published_date,
          optional-str lax x.source,
          optional-str lax x.snippet,
          optional-float floats exact x.relevance_score,
        )
        refl

  -- The answer of the news server, with its articles, is read back as it was written.
  pub news_summary_of-news_summary_fields :
      (x : NewsSummaryData floats.Float)
      → news_summary_of lax floats (obj (news_summary_fields floats x)) ≡ some x
  unfolding news_summary_of news_summary_fields Json.get
  news_summary_of-news_summary_fields x =
      rw
        (
          as_int-of_int lax x.schema_version,
          optional-str lax x.company,
          read_list-write_list (λ x. obj (news_article_fields floats x))
              (news_article_of lax floats) news_article_of-news_article_fields x.articles,
          optional-str lax x.aggregate_signal,
          optional-str lax x.signal_rationale,
        )
        refl
